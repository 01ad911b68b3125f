-- ===== src/Mesh/Forward.antt =====
-- What a Relay Gateway does with a mesh packet of another relay: the next receiver gets it with one
-- more hop.
use chirpstack_gateway_mesh.Common.{
  ℕ, ◌+◌, ◌%◌, ◌≤◌, ◌<◌, ◌≡◌, refl, ◌∙◌, ap, Bool, true, false, List, [], ◌∷◌, ◌++◌, some, ltb,
  length, arith,
}
use chirpstack_gateway_mesh.Common.Bytes.{Bytes4}
use chirpstack_gateway_mesh.Common.Result
use chirpstack_gateway_mesh.Common.Result.{
  Result, ok, ok_or, reject_if, max_hop_count_exceeded, rx_info_is_none, relay_id_not_set,
}
use chirpstack_gateway_mesh.Aes128.{IsBlockCipher, get_encryption_key, get_key}
use chirpstack_gateway_mesh.Cache
use chirpstack_gateway_mesh.Cache.PayloadCache.{payload_cache_eq, from_packet}
use chirpstack_gateway_mesh.Mesh.Handle.{
  handle_mesh, handle_valid, handle_fresh, dispatch, add_to_cache,
}
use chirpstack_gateway_mesh.Mesh.Replay.{valid_packet}
use chirpstack_gateway_mesh.Packets.MeshPacket
use chirpstack_gateway_mesh.Packets.MeshPacket.{
  MeshPacket, Payload, IsMac, IsSendable, IsTransported, arrival, seal, transport,
}
use chirpstack_gateway_mesh.Helpers.Ack.{format_downlink}
use chirpstack_gateway_mesh.Gw.{UplinkFrame, UplinkRxInfo, DownlinkFrame}
use chirpstack_gateway_mesh.Runtime.{State, Env, mesh_frame, ◌>>=◌, lift, pure}
use chirpstack_gateway_mesh.Runtime.Returns
use chirpstack_gateway_mesh.Backend.{get_relay_id, random, mesh, ask_mesh, emit}
use chirpstack_gateway_mesh.Mesh.Counters.{get_mesh_frequency, get_mesh_frequency_total}
use chirpstack_gateway_mesh.Mesh.Send.{mesh_frame_of, signing_key, encryption_key, mesh_tx_info}
use chirpstack_gateway_mesh.Mesh.Relay.{retransmit, next_hop, send_on, relay_mesh_packet}
use chirpstack_gateway_mesh.Mesh.Hops.{relay_id_of, passed_on, not_named}
use chirpstack_gateway_mesh.Node.Frames.{encrypt-mhdr, set_mic-mhdr}

accepted :
    {limit : ℕ} (hops : ℕ)
    → hops ≤ limit
    → reject_if (ltb limit hops) max_hop_count_exceeded ≡ ok tt
accepted hops le = ground arith

pub fresh_added :
    (c : Cache.Cache Cache.PayloadCache.PayloadCache) (key : Cache.PayloadCache.PayloadCache)
    → Cache.contains payload_cache_eq c.deque key ≡ false
    → (Cache.add payload_cache_eq c key).0 ≡ true
unfolding Cache.add
fresh_added c key fresh = rw fresh refl

-- The packet that the next receiver is to get: one more hop, the same type and code.
abbrev pub onward : MeshPacket → Payload → MeshPacket
onward packet payload = record packet {
  mhdr = record (packet.mhdr) { hop_count = packet.mhdr.hop_count + 1 };
  payload = payload;
}

next_hop-onward :
    (packet : MeshPacket) (payload : Payload)
    → packet.mhdr.hop_count + 1 ≤ 8
    → next_hop packet payload ≡ onward packet payload
unfolding next_hop
next_hop-onward packet payload small =
    let exact : (packet.mhdr.hop_count + 1) % 256 ≡ packet.mhdr.hop_count + 1 =
      omega (arith, small) in
    ap (λ n. record packet { mhdr = record (packet.mhdr) { hop_count = n }; payload = payload })
      exact

module _ {F32 : Type 0} (env : Env F32) where
  -- One frame was sent since `before`, with these bytes.
  abbrev pub SentOne : List ℕ → State F32 → State F32 → Type 0
  SentOne wire before s =
      (pl : DownlinkFrame) × (frequency : ℕ) × (pl.items
        ≡ record { phy_payload = wire; tx_info = some (mesh_tx_info env frequency) } ∷ [])
      × (s.sent ≡ before.sent ++ mesh_frame pl ∷ [])

  frequency_chosen :
      (fs : List ℕ) (s : State F32) → 0 < length fs → (r : ℕ) × ((get_mesh_frequency fs s).0 ≡ ok r)
  frequency_chosen [] s pos = absurd (omega (arith, pos))
  frequency_chosen (f ∷ fs) s pos =
      let (lt, (r, e, found), c) = get_mesh_frequency_total f fs s in (r, e)

  frequency_sends_nothing :
      (fs : List ℕ) (s : State F32) → (get_mesh_frequency fs s).1.sent ≡ s.sent
  unfolding get_mesh_frequency ◌>>=◌
  frequency_sends_nothing [] s = refl
  frequency_sends_nothing (f ∷ fs) s = refl

  pub mesh_sends :
      (pl : DownlinkFrame) (s : State F32)
      → format_downlink pl ≡ ok tt
      → (mesh env pl s).1.sent ≡ s.sent ++ mesh_frame pl ∷ []
  unfolding mesh ask_mesh emit ◌>>=◌
  mesh_sends pl s formats = ground (arith, formats)

  -- The frame that is sent to the mesh with these bytes.
  abbrev pub mesh_frame_with : ℕ → List ℕ → ℕ → DownlinkFrame
  mesh_frame_with downlink_id wire frequency = record {
    downlink_id = downlink_id;
    items = record { phy_payload = wire; tx_info = some (mesh_tx_info env frequency) } ∷ [];
    gateway_id = [];
  }

  -- The frame around a packet is built without sending anything.
  pub framed :
      (downlink_id : ℕ) (packet : MeshPacket) (wire : List ℕ) (s : State F32)
      → MeshPacket.to_vec packet ≡ ok wire
      → 0 < length env.conf.mesh.frequencies
      → (t : State F32) × (frequency : ℕ) × (t.sent ≡ s.sent)
        × (mesh_frame_of env downlink_id packet s
            ≡ (ok (mesh_frame_with downlink_id wire frequency), t))
  unfolding mesh_frame_of pure
  framed downlink_id packet wire s writes pos =
      let fs = env.conf.mesh.frequencies in
      let (r, chosen) = frequency_chosen fs s pos in
      (
        (get_mesh_frequency fs s).1,
        r,
        frequency_sends_nothing fs s,
        Returns.>>=-lift-ok _ _ s writes ∙ Returns.>>=-ok _ _ s chosen,
      )

  pub transmitted :
      (packet : MeshPacket) (wire : List ℕ) (s : State F32)
      → MeshPacket.to_vec packet ≡ ok wire
      → 0 < length env.conf.mesh.frequencies
      → SentOne wire s
          ((random env >>= λ id. mesh_frame_of env id packet >>= λ pl. mesh env pl) s).1
  unfolding pure random format_downlink mesh_tx_info
  transmitted packet wire s writes pos =
      let s' : State F32 = record s { reads = s.reads + 1 } in
      let (t, r, same, built) = framed (env.random s.reads) packet wire s' writes pos in
      let pl = mesh_frame_with (env.random s.reads) wire r in
      let run : (random env >>= λ id. mesh_frame_of env id packet >>= λ pl. mesh env pl) s
          ≡ mesh env pl t =
        Returns.>>=-ok _ _ s refl
        ∙ Returns.>>=-ok _ _ s' (ap (λ x. x.0) built)
        ∙ ap (λ x. mesh env pl x.1) built in
      (
        pl,
        r,
        refl,
        ap (λ x. x.1.sent) run
            ∙ mesh_sends pl t refl
            ∙ ap (λ sent. sent ++ mesh_frame pl ∷ []) same,
      )

  -- A packet is encrypted, signed and sent as one frame.
  pub sealed_sent :
      (packet : MeshPacket) (wire : List ℕ) (s : State F32)
      → seal env.aes env.cmac (encryption_key env) (signing_key env) packet ≡ ok wire
      → 0 < length env.conf.mesh.frequencies
      → SentOne wire s
          ((lift (MeshPacket.encrypt env.aes (encryption_key env) packet) >>= λ q.
              lift (MeshPacket.set_mic env.cmac (signing_key env) q) >>= λ r.
              random env >>= λ id. mesh_frame_of env id r >>= λ pl. mesh env pl)
            s).1
  unfolding seal
  sealed_sent packet wire s seals pos =
      let (q, encrypted, rest) = Result.>>=-eq-ok _ _ seals in
      let (r, signed, writes) = Result.>>=-eq-ok _ _ rest in
      let (pl, frequency, items, sent) = transmitted r wire s writes pos in
      (
        pl,
        frequency,
        items,
        ap (λ x. x.1.sent) (Returns.>>=-lift-ok _ _ s encrypted ∙ Returns.>>=-lift-ok _ _ s signed)
            ∙ sent,
      )

  retransmitted :
      (packet : MeshPacket) (wire : List ℕ) (s : State F32)
      → seal env.aes env.cmac (encryption_key env) (signing_key env) packet ≡ ok wire
      → packet.mhdr.hop_count ≤ env.conf.mesh.max_hop_count
      → 0 < length env.conf.mesh.frequencies
      → SentOne wire s (retransmit env packet s).1
  unfolding retransmit seal
  retransmitted packet wire s seals within pos =
      let (q, encrypted, rest) = Result.>>=-eq-ok _ _ seals in
      let (r, signed, writes) = Result.>>=-eq-ok _ _ rest in
      let same : r.mhdr ≡ packet.mhdr =
        set_mic-mhdr _ _ q signed ∙ encrypt-mhdr _ _ packet encrypted in
      let run : retransmit env packet s
          ≡ (random env >>= λ id. mesh_frame_of env id r >>= λ pl. mesh env pl) s =
        Returns.>>=-lift-ok _ _ s encrypted
        ∙ Returns.>>=-lift-ok _ _ s signed
        ∙ Returns.>>=-lift-ok _ _ s
            (accepted {limit = env.conf.mesh.max_hop_count} r.mhdr.hop_count (rw same within)) in
      let (pl, frequency, items, sent) = transmitted r wire s writes pos in
      (pl, frequency, items, ap (λ x. x.1.sent) run ∙ sent)

  -- The packet goes on: for a packet whose payload names another relay, and which has hops left.
  relayed :
      (pl : UplinkFrame F32) (packet : MeshPacket) (relay_id : Bytes4) (rx_info : UplinkRxInfo F32)
      (next : MeshPacket) (wire : List ℕ) (s : State F32)
      → env.relay_id ≡ some relay_id
      → pl.rx_info ≡ some rx_info
      → MeshPacket.mic_eq (relay_id_of packet.payload) relay_id ≡ false
      → next_hop packet (passed_on env relay_id rx_info packet.payload) ≡ next
      → next.mhdr.hop_count ≤ env.conf.mesh.max_hop_count
      → seal env.aes env.cmac (encryption_key env) (signing_key env) next ≡ ok wire
      → 0 < length env.conf.mesh.frequencies
      → SentOne wire s (relay_mesh_packet env pl packet s).1
  unfolding relay_mesh_packet get_relay_id send_on
  relayed pl packet relay_id rx_info next wire s id received other e within seals pos =
      let q = passed_on env relay_id rx_info packet.payload in
      let kept = not_named env relay_id rx_info packet.payload s other in
      let run : relay_mesh_packet env pl packet s ≡ retransmit env next s =
        Returns.>>=-lift-ok _ _ s (ap (λ o. ok_or o relay_id_not_set) id)
        ∙ Returns.>>=-lift-ok _ _ s (ap (λ o. ok_or o rx_info_is_none) received)
        ∙ Returns.>>=-ok _ _ s (ap (λ x. x.0) kept)
        ∙ ap (λ x. retransmit env (next_hop packet q) x.1) kept
        ∙ ap (λ n. retransmit env n s) e in
      let (frame, frequency, items, sent) = retransmitted next wire s seals within pos in
      (frame, frequency, items, ap (λ x. x.1.sent) run ∙ sent)

  pub encryption_key-length :
      IsBlockCipher env.aes
      → length env.conf.mesh.root_key.bytes ≡ 16
      → length (encryption_key env).bytes ≡ 16
  unfolding encryption_key get_encryption_key get_key
  encryption_key-length cipher sixteen = (cipher env.conf.mesh.root_key.bytes _ sixteen refl).0

  -- A fresh packet with a correct code is dispatched after its decryption.
  pub fresh_packet :
      (b : Bool) (pl : UplinkFrame F32) (got packet : MeshPacket) (s : State F32)
      → MeshPacket.from_slice pl.phy_payload ≡ ok got
      → MeshPacket.validate_mic env.cmac (signing_key env) got ≡ ok true
      → Cache.contains payload_cache_eq s.payload_cache.deque (from_packet got) ≡ false
      → MeshPacket.decrypt env.aes (encryption_key env) got ≡ ok packet
      → (c : Cache.Cache Cache.PayloadCache.PayloadCache) × (handle_mesh env b pl s
          ≡ dispatch env b pl packet (record s { payload_cache = c }))
  unfolding handle_valid handle_fresh add_to_cache pure
  fresh_packet b pl got packet s parsed valid fresh decrypted =
      let t = (add_to_cache got s).1 in
      (
        t.payload_cache,
        valid_packet env b pl got s parsed valid
            ∙ Returns.>>=-ok _ _ s refl
            ∙ ap (λ added. handle_fresh env b pl got added t)
                (fresh_added s.payload_cache (from_packet got) fresh)
            ∙ Returns.>>=-lift-ok _ _ t decrypted,
      )

  -- A relay sends a packet of another relay on. If a frame with a correct code arrives whose packet is
  -- not among the last ones, whose payload, decrypted, names another relay, which has hops left, and which
  -- with one more hop and what the relay adds fits the fields of a mesh packet, then exactly one frame
  -- is sent to the mesh. Its bytes are read and accepted by every receiver with the same keys, and
  -- decrypt to the packet with one more hop and the same payload, in which the relay, with the signal
  -- of the reception, stands at the end of the path of each heartbeat (times in whole seconds).
  pub handle_mesh_forwards :
      (pl : UplinkFrame F32) (got packet : MeshPacket) (relay_id : Bytes4)
      (rx_info : UplinkRxInfo F32) (s : State F32)
      → IsBlockCipher env.aes
      → IsMac env.cmac
      → length env.conf.mesh.root_key.bytes ≡ 16
      → 0 < length env.conf.mesh.frequencies
      → env.relay_id ≡ some relay_id
      → pl.rx_info ≡ some rx_info
      → MeshPacket.from_slice pl.phy_payload ≡ ok got
      → MeshPacket.validate_mic env.cmac (signing_key env) got ≡ ok true
      → Cache.contains payload_cache_eq s.payload_cache.deque (from_packet got) ≡ false
      → MeshPacket.decrypt env.aes (encryption_key env) got ≡ ok packet
      → MeshPacket.mic_eq (relay_id_of packet.payload) relay_id ≡ false
      → let next = onward packet (passed_on env relay_id rx_info packet.payload) in
        next.mhdr.hop_count ≤ env.conf.mesh.max_hop_count
        → IsSendable next
        → (t : IsTransported env.aes env.cmac
            (encryption_key env)
            (signing_key env)
            next
            (arrival next.payload))
          × SentOne t.wire s (handle_mesh env false pl s).1
  unfolding dispatch
  handle_mesh_forwards pl got packet relay_id rx_info s cipher mac sixteen pos id received parsed
        valid fresh decrypted other within sendable =
      let next = onward packet (passed_on env relay_id rx_info packet.payload) in
      let t =
        transport env.aes cipher (encryption_key env) (encryption_key-length cipher sixteen)
          env.cmac mac (signing_key env) next sendable in
      let (c, run) = fresh_packet false pl got packet s parsed valid fresh decrypted in
      let added : State F32 = record s { payload_cache = c } in
      let (frame, frequency, items, sent) =
        relayed pl packet relay_id rx_info next t.wire added id received other
          (next_hop-onward packet _ sendable.hops_max) within t.seals pos in
      (t, (frame, frequency, items, ap (λ x. x.1.sent) run ∙ sent))
