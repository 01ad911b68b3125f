-- ===== src/Node/Settled/Senders.antt =====
-- The steps and the senders that the handlers share.
use mathlib.Core.Path.{subst}
use chirpstack_gateway_mesh.Common.{ℕ, ◌<◌, List, [], ◌∷◌, length, arith, in_range, get_elem?}
use chirpstack_gateway_mesh.Common.Time.{SystemTime}
use chirpstack_gateway_mesh.Common.Result.{
  Result, ok, IsSettled, IsSettled->>=, IsSettled-ok_or, IsSettled-map_ok, ok_injective,
}
use chirpstack_gateway_mesh.Packets.Event.{Event}
use chirpstack_gateway_mesh.Packets.MeshPacket
use chirpstack_gateway_mesh.Packets.MeshPacket.{MeshPacket, Payload, IsMac, IsPlain}
use chirpstack_gateway_mesh.Gw
use chirpstack_gateway_mesh.Gw.{
  UplinkFrame, UplinkRxInfo, UplinkTxInfo, DownlinkFrame, DownlinkFrameItem, DownlinkTxAck,
}
use chirpstack_gateway_mesh.Helpers.Settled.{tx_ack_to_err-IsSettled, format_downlink-IsSettled}
use chirpstack_gateway_mesh.Runtime.{State, Env, Output, ◌>>=◌, ◌>>◌, pure, lift, inspect}
use chirpstack_gateway_mesh.Runtime.Settles.{
  Settles, Settles-pure, Settles-lift, Settles-inspect, Settles-bind, Settles-bind_result,
  Settles-bind-lift,
}
use chirpstack_gateway_mesh.Backend.{
  emit, ask_mesh, mesh, send_downlink, send_gateway_configuration, send_event, get_relay_id,
  get_gateway_id, random,
}
use chirpstack_gateway_mesh.Commands.{set_last_timestamp}
use chirpstack_gateway_mesh.Events.{
  now, send_events, get_events, get_event, event_of, report_events,
}
use chirpstack_gateway_mesh.Mesh.Counters.{
  get_mesh_frequency, store_uplink_context, get_uplink_id, next_channel, next_channel-lt, at_index,
}
use chirpstack_gateway_mesh.Mesh.Send.{mesh_frame_of, signing_key, encryption_key}
use chirpstack_gateway_mesh.Mesh.Handle.{add_to_cache}

-- What the handlers call returns: the code of a message has 16 bytes, and the Concentratord processes,
-- the proxy channel, the programs and the decoder of hex texts answer, if only with an error.
pub record IsResponsive {F32 : Type 0} (env : Env F32) : Type 0 where
  pub mac : IsMac env.cmac
  pub mesh : (sent : List (Output F32)) (pl : DownlinkFrame) → IsSettled (env.mesh_reply sent pl)
  pub downlink :
      (sent : List (Output F32)) (pl : DownlinkFrame) → IsSettled (env.downlink_reply sent pl)
  pub configuration : (sent : List (Output F32)) → IsSettled (env.configuration_reply sent)
  pub proxy : (sent : List (Output F32)) → IsSettled (env.proxy_reply sent)
  pub run : (args : List (List ℕ)) (value : List ℕ) → IsSettled (env.run args value)
  pub output : (args : List (List ℕ)) → IsSettled (env.output args)
  pub hex : (b : List ℕ) → IsSettled (env.hex_decode4 b)

at_index_settled : (fs : List ℕ) (i : ℕ) → i < length fs → IsSettled (at_index (get_elem? fs i))
at_index_settled fs i lt = let (f, e) = in_range fs i lt in rw e tt

module _ {F32 : Type 0} where
  pub emit-Settles : (o : Output F32) → Settles (emit o)
  unfolding emit pure
  emit-Settles o = record { at = λ s. tt }

  -- Something is sent, and the answer returned.
  pub asked-Settles :
      {R : Type 0} (reply : List (Output F32) → Result R) (o : Output F32)
      → ((sent : List (Output F32)) → IsSettled (reply sent))
      → Settles (inspect (λ s. ok (reply s.sent)) >>= λ r. emit o >> lift r)
  unfolding inspect
  asked-Settles reply o answers = Settles-bind_result _ _ (Settles-inspect _ (λ s. tt)) λ r s e.
      Settles-bind _ _ (emit-Settles o)
        λ u. Settles-lift r (subst IsSettled (ok_injective e) (answers s.sent))

  -- The index of the next frequency is in range.
  pub frequency-Settles : (fs : List ℕ) → Settles {S = State F32} (get_mesh_frequency fs)
  unfolding get_mesh_frequency ◌>>=◌
  frequency-Settles [] = record { at = λ s. tt }
  frequency-Settles (f ∷ fs) = record {
    at = λ s.
        at_index_settled (f ∷ fs) (next_channel (length (f ∷ fs)) s.mesh_channel)
          (next_channel-lt (length (f ∷ fs)) s.mesh_channel (omega arith));
  }

  pub store-Settles : (ctx : List ℕ) → Settles {S = State F32} (store_uplink_context ctx)
  unfolding store_uplink_context get_uplink_id ◌>>=◌
  store-Settles ctx = record { at = λ s. tt }

  pub timestamp-Settles : (t : SystemTime) → Settles {S = State F32} (set_last_timestamp t)
  unfolding set_last_timestamp pure
  timestamp-Settles t = record { at = λ s. tt }

  pub cache-Settles : (packet : MeshPacket) → Settles {S = State F32} (add_to_cache packet)
  unfolding add_to_cache pure
  cache-Settles packet = record { at = λ s. tt }

module _ {F32 : Type 0} (env : Env F32) where
  pub random-Settles : Settles (random env)
  unfolding random pure
  random-Settles = record { at = λ s. tt }

  pub now-Settles : Settles (now env)
  unfolding now pure
  now-Settles = record { at = λ s. tt }

  pub relay_id-Settles : Settles (get_relay_id env)
  unfolding get_relay_id
  relay_id-Settles = Settles-lift _ (IsSettled-ok_or _ _)

  pub gateway_id-Settles : Settles (get_gateway_id env)
  unfolding get_gateway_id
  gateway_id-Settles = Settles-lift _ (IsSettled-ok_or _ _)

  pub frame-Settles : (id : ℕ) (packet : MeshPacket) → Settles (mesh_frame_of env id packet)
  unfolding mesh_frame_of
  frame-Settles id packet =
      Settles-bind-lift _ _ (MeshPacket.to_vec-IsSettled packet)
        λ wire e. Settles-bind _ _ (frequency-Settles _) λ f. Settles-pure _

  module _ (resp : IsResponsive env) where
    pub mesh-Settles : (pl : DownlinkFrame) → Settles (mesh env pl)
    unfolding mesh ask_mesh
    mesh-Settles pl = Settles-bind _ _ (Settles-lift _ (format_downlink-IsSettled pl)) λ u.
        Settles-bind _ _ (asked-Settles _ _ (λ sent. resp.mesh sent pl))
          λ ack. Settles-lift _ (tx_ack_to_err-IsSettled ack)

    pub transmit-Settles :
        (packet : MeshPacket)
        → Settles (random env >>= λ id. mesh_frame_of env id packet >>= λ pl. mesh env pl)
    transmit-Settles packet =
        Settles-bind _ _ random-Settles
          λ id. Settles-bind _ _ (frame-Settles id packet) mesh-Settles

    -- The end of the senders of an encrypted packet.
    pub seal-Settles :
        (packet : MeshPacket)
        → Settles (
            lift (MeshPacket.encrypt env.aes (encryption_key env) packet) >>= λ p.
            lift (MeshPacket.set_mic env.cmac (signing_key env) p) >>= λ q.
            random env >>= λ id. mesh_frame_of env id q >>= λ pl. mesh env pl)
    seal-Settles packet =
        Settles-bind-lift _ _ (MeshPacket.encrypt-IsSettled env.aes (encryption_key env) packet)
          λ p e.
            Settles-bind-lift _ _
              (MeshPacket.set_mic-IsSettled env.cmac resp.mac (signing_key env) p)
              λ q f. transmit-Settles q

    pub send_event-Settles : (pl : Gw.Event F32) → Settles (send_event env pl)
    unfolding send_event
    send_event-Settles pl =
        Settles-bind _ _ (Settles-inspect _ (λ s. resp.proxy s.sent)) (λ u. emit-Settles _)

    pub send_downlink-Settles : (pl : DownlinkFrame) → Settles (send_downlink env pl)
    unfolding send_downlink
    send_downlink-Settles pl =
        Settles-bind _ _ (Settles-lift _ (format_downlink-IsSettled pl))
          λ u. asked-Settles _ _ (λ sent. resp.downlink sent pl)

    pub configuration-Settles : (pl : List ℕ) → Settles (send_gateway_configuration env pl)
    unfolding send_gateway_configuration
    configuration-Settles pl = asked-Settles _ _ resp.configuration

    pub send_events-Settles : (es : List Event) → Settles (send_events env es)
    unfolding send_events
    send_events-Settles es =
        Settles-bind _ _ now-Settles λ t. Settles-bind _ _ relay_id-Settles λ id. seal-Settles _

    event_of-IsSettled : (typ : ℕ) (args : List (List ℕ)) → IsSettled (event_of env typ args)
    unfolding event_of
    event_of-IsSettled typ [] = tt
    event_of-IsSettled typ (arg ∷ args) = IsSettled-map_ok _ _ (resp.output (arg ∷ args))

    get_event-IsSettled : (typ : ℕ) → IsSettled (get_event env typ)
    unfolding get_event
    get_event-IsSettled typ =
        IsSettled->>= _ _ (IsSettled-ok_or env.event_commands _)
          λ commands. IsSettled->>= _ _ (IsSettled-ok_or (commands typ) _) (event_of-IsSettled typ)

    get_events-Settles : (typs : List ℕ) → Settles (get_events env typs)
    unfolding get_events
    get_events-Settles [] = Settles-pure _
    get_events-Settles (t ∷ typs) =
        Settles-bind _ _ (Settles-lift _ (get_event-IsSettled t))
          λ e. Settles-bind _ _ (get_events-Settles typs) λ es. Settles-pure _

    pub report_events-Settles : (typs : List ℕ) → Settles (report_events env typs)
    unfolding report_events
    report_events-Settles typs = Settles-bind _ _ (get_events-Settles typs) send_events-Settles
