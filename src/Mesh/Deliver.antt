-- ===== src/Mesh/Deliver.antt =====
-- The way of an uplink: from the relay that receives it to the Border Gateway, which passes it on.
use chirpstack_gateway_mesh.Common.{
  ℕ, ◌/◌, ◌%◌, ◌≤◌, ◌<◌, ◌≡◌, refl, sym, ◌∙◌, ap, true, false, List, [], ◌∷◌, ◌++◌, Option, some,
  none, length,
}
use chirpstack_gateway_mesh.Common.Int.{as_i16}
use chirpstack_gateway_mesh.Common.Bytes.{Bytes4, to_list}
use chirpstack_gateway_mesh.Common.Result
use chirpstack_gateway_mesh.Common.Result.{
  Result, ok, ok_or, ok_injective, rx_info_is_none, tx_info_is_none, modulation_is_none,
  relay_id_not_set, gateway_id_not_set,
}
use chirpstack_gateway_mesh.Aes128.{IsBlockCipher}
use chirpstack_gateway_mesh.Cache
use chirpstack_gateway_mesh.Cache.PayloadCache.{payload_cache_eq, from_packet}
use chirpstack_gateway_mesh.Packets.PayloadType
use chirpstack_gateway_mesh.Packets.UplinkPayload.{UplinkPayload}
use chirpstack_gateway_mesh.Packets.MeshPacket
use chirpstack_gateway_mesh.Packets.MeshPacket.{
  MeshPacket, Payload, IsMac, IsSendable, seal, transport,
}
use chirpstack_gateway_mesh.Helpers.Mapping.{
  modulation_to_dr, frequency_to_chan, chan_to_frequency, dr_to_modulation, HasByteFactor, as_sent,
  chan_to_frequency-frequency_to_chan, dr_to_modulation-modulation_to_dr,
}
use chirpstack_gateway_mesh.Gw
use chirpstack_gateway_mesh.Gw.{UplinkFrame, UplinkRxInfo, UplinkTxInfo}
use chirpstack_gateway_mesh.Runtime.{State, Env, M, mesh_frame, proxy_event, ◌>>=◌, lift, pure}
use chirpstack_gateway_mesh.Runtime.Returns
use chirpstack_gateway_mesh.Backend.{random, mesh, get_relay_id, get_gateway_id, send_event, emit}
use chirpstack_gateway_mesh.Mesh.Counters.{store_uplink_context, get_uplink_id, next_uplink_id}
use chirpstack_gateway_mesh.Mesh.Send.{mesh_frame_of, signing_key, encryption_key}
use chirpstack_gateway_mesh.Mesh.Proxy.{
  relay_context, set_rx_info, set_tx_info, unwrap_uplink, proxy_uplink_mesh_packet,
}
use chirpstack_gateway_mesh.Mesh.Relay.{uplink_packet, relay_uplink_lora_packet}
use chirpstack_gateway_mesh.Mesh.Handle.{handle_mesh, dispatch, proxy_packet}
use chirpstack_gateway_mesh.Mesh.Forward.{SentOne, transmitted, fresh_packet, encryption_key-length}

-- The mesh packet around the payload.
abbrev pub relayed_packet : UplinkPayload → MeshPacket
relayed_packet v = record {
  mhdr = record { payload_type = PayloadType.uplink; hop_count = 1 };
  payload = Payload.uplink v;
  mic = none;
}

module _ {F32 : Type 0} (env : Env F32) where
  -- What a relay makes of an uplink.
  abbrev pub relayed_payload :
      UplinkFrame F32 → UplinkRxInfo F32 → Bytes4 → ℕ → ℕ → State F32 → UplinkPayload
  relayed_payload pl rx_info relay_id dr channel s = record {
    metadata = record {
      uplink_id = next_uplink_id s.uplink_id;
      dr = dr;
      channel = channel;
      rssi = as_i16 rx_info.rssi;
      snr = env.f32_as_i8 rx_info.snr;
    };
    relay_id = relay_id;
    phy_payload = pl.phy_payload;
  }

  -- What the Border Gateway makes of the frame in which the payload arrives.
  abbrev pub unwrapped :
      UplinkPayload → List ℕ → ℕ → UplinkRxInfo F32 → ℕ → Gw.Modulation → UplinkFrame F32
  unwrapped v gateway_id hop_count rx_info frequency modulation = record {
    phy_payload = v.phy_payload;
    tx_info = some (record { frequency = frequency; modulation = some modulation });
    rx_info = some (record rx_info {
      gateway_id = env.hex_encode gateway_id;
      hop_count = some hop_count;
      relay_id = some (env.hex_encode (to_list v.relay_id));
      snr = env.f32_of_i8 v.metadata.snr;
      rssi = v.metadata.rssi;
      context =
          1
          ∷ 2
          ∷ 3
          ∷ v.relay_id.b0
          ∷ v.relay_id.b1
          ∷ v.relay_id.b2
          ∷ v.relay_id.b3
          ∷ v.metadata.uplink_id / 256 % 256
          ∷ v.metadata.uplink_id % 256
          ∷ [];
    });
  }

  built :
      (pl : UplinkFrame F32) (rx_info : UplinkRxInfo F32) (tx_info : UplinkTxInfo)
      (modulation : Gw.Modulation) (relay_id : Bytes4) (dr channel : ℕ) (s : State F32)
      → pl.rx_info ≡ some rx_info
      → pl.tx_info ≡ some tx_info
      → tx_info.modulation ≡ some modulation
      → modulation_to_dr env.conf.mappings modulation ≡ ok dr
      → frequency_to_chan env.conf.mappings tx_info.frequency ≡ ok channel
      → env.relay_id ≡ some relay_id
      → (t : State F32) × (t.sent ≡ s.sent)
        × (uplink_packet env pl s
            ≡ (ok (relayed_packet (relayed_payload pl rx_info relay_id dr channel s)), t))
  unfolding uplink_packet get_relay_id store_uplink_context get_uplink_id pure ◌>>=◌
  built pl rx_info tx_info modulation relay_id dr channel s rx tx modulated dr_is channel_is id =
      let t = (store_uplink_context rx_info.context s).1 in
      (t, refl, rw (rx, tx, modulated, dr_is, channel_is, id) refl)

  relay_sends :
      (pl : UplinkFrame F32) (p : MeshPacket) (wire : List ℕ) (s t : State F32)
      → uplink_packet env pl s ≡ (ok p, t)
      → t.sent ≡ s.sent
      → MeshPacket.encrypt env.aes (encryption_key env) p ≡ ok p
      → seal env.aes env.cmac (encryption_key env) (signing_key env) p ≡ ok wire
      → 0 < length env.conf.mesh.frequencies
      → SentOne env wire s (relay_uplink_lora_packet env pl s).1
  unfolding relay_uplink_lora_packet seal
  relay_sends pl p wire s t build same plain seals pos =
      let (q, encrypted, rest) = Result.>>=-eq-ok _ _ seals in
      let (r, signed, writes) = Result.>>=-eq-ok _ _ rest in
      let signed' =
        ap (MeshPacket.set_mic env.cmac (signing_key env)) (ok_injective (sym plain ∙ encrypted))
        ∙ signed in
      let rest_of : MeshPacket → M (State F32) (Unit {0}) = λ p.
        lift (MeshPacket.set_mic env.cmac (signing_key env) p) >>= λ q.
        random env >>= λ id. mesh_frame_of env id q >>= λ pl. mesh env pl in
      let run : relay_uplink_lora_packet env pl s
          ≡ (random env >>= λ id. mesh_frame_of env id r >>= λ pl. mesh env pl) t =
        Returns.>>=-ok (uplink_packet env pl) rest_of s (ap (λ x. x.0) build)
        ∙ ap (λ x. rest_of p x.1) build
        ∙ Returns.>>=-lift-ok _ _ t signed' in
      let (frame, frequency, items, sent) = transmitted env r wire t writes pos in
      (
        frame,
        frequency,
        items,
        ap (λ x. x.1.sent) run ∙ sent ∙ ap (λ sent. sent ++ mesh_frame frame ∷ []) same,
      )

  -- The Border Gateway passes the uplink of a decrypted packet on.
  unwraps :
      (pl : UplinkFrame F32) (rx_info : UplinkRxInfo F32) (tx_info : UplinkTxInfo)
      (v : UplinkPayload) (hop_count : ℕ) (gateway_id : List ℕ) (frequency : ℕ)
      (modulation : Gw.Modulation) (s : State F32)
      → pl.rx_info ≡ some rx_info
      → pl.tx_info ≡ some tx_info
      → env.gateway_id ≡ some gateway_id
      → chan_to_frequency env.conf.mappings v.metadata.channel ≡ ok frequency
      → dr_to_modulation env.conf.mappings v.metadata.dr false ≡ ok modulation
      → env.proxy_reply s.sent ≡ ok tt
      → (unwrap_uplink env pl hop_count (Payload.uplink v) s).1.sent
        ≡ s.sent
          ++ proxy_event (
              Gw.Event.uplink_frame (unwrapped v gateway_id hop_count rx_info frequency modulation))
            ∷ []
  unfolding unwrap_uplink set_rx_info set_tx_info relay_context get_gateway_id send_event emit ◌>>=◌
  unwraps pl rx_info tx_info v hop_count gateway_id frequency modulation s rx tx id chan dr proxy =
      rw (rx, tx, id, chan, dr, proxy) refl

  border_unwraps :
      (pl : UplinkFrame F32) (rx_info : UplinkRxInfo F32) (tx_info : UplinkTxInfo)
      (got : MeshPacket) (hop_count : ℕ) (mic : Option Bytes4) (v : UplinkPayload)
      (gateway_id : List ℕ) (frequency : ℕ) (modulation : Gw.Modulation) (s : State F32)
      → MeshPacket.from_slice pl.phy_payload ≡ ok got
      → MeshPacket.validate_mic env.cmac (signing_key env) got ≡ ok true
      → Cache.contains payload_cache_eq s.payload_cache.deque (from_packet got) ≡ false
      → MeshPacket.decrypt env.aes (encryption_key env) got
        ≡ ok (record {
          mhdr = record { payload_type = PayloadType.uplink; hop_count = hop_count };
          payload = Payload.uplink v;
          mic = mic;
        })
      → pl.rx_info ≡ some rx_info
      → pl.tx_info ≡ some tx_info
      → env.gateway_id ≡ some gateway_id
      → chan_to_frequency env.conf.mappings v.metadata.channel ≡ ok frequency
      → dr_to_modulation env.conf.mappings v.metadata.dr false ≡ ok modulation
      → env.proxy_reply s.sent ≡ ok tt
      → (handle_mesh env true pl s).1.sent
        ≡ s.sent
          ++ proxy_event (
              Gw.Event.uplink_frame (unwrapped v gateway_id hop_count rx_info frequency modulation))
            ∷ []
  unfolding dispatch proxy_packet proxy_uplink_mesh_packet
  border_unwraps pl rx_info tx_info got hop_count mic v gateway_id frequency modulation s parsed
        valid fresh decrypted rx tx id chan dr proxy =
      let (c, run) = fresh_packet env true pl got _ s parsed valid fresh decrypted in
      ap (λ x. x.1.sent) run
      ∙ unwraps pl rx_info tx_info v hop_count gateway_id frequency modulation
          (record s { payload_cache = c }) rx tx id chan dr proxy

-- Two gateways of one mesh: the same keys, and the same channels and data rates.
pub record SharesMesh {F32 : Type 0} (relay border : Env F32) : Type 0 where
  pub aes : border.aes ≡ relay.aes
  pub cmac : border.cmac ≡ relay.cmac
  pub encryption : encryption_key border ≡ encryption_key relay
  pub signing : signing_key border ≡ signing_key relay
  pub mappings : border.conf.mappings ≡ relay.conf.mappings

module _ {F32 : Type 0} (relay border : Env F32) where
  plain_uplink :
      (v : UplinkPayload)
      → MeshPacket.encrypt relay.aes (encryption_key relay) (relayed_packet v)
        ≡ ok (relayed_packet v)
  unfolding MeshPacket.encrypt MeshPacket.encrypt_payload
  plain_uplink v = refl

  -- An uplink that a relay receives reaches the network server. If its data rate and frequency are among
  -- those configured, and what it makes fits the fields of a mesh packet (data rate, signal strength and
  -- the like), the relay sends exactly one frame to the mesh. When a Border Gateway of the same mesh
  -- receives these bytes for the first time, exactly one event goes to the proxy API: the uplink with its
  -- frame, its frequency and data rate, with the signal strength at the relay, and with a context of
  -- the bytes 1, 2, 3, the four bytes of the relay ID and the two of the identifier of the uplink.
  pub uplink_delivered :
      (pl at_border : UplinkFrame F32) (rx_info border_rx : UplinkRxInfo F32)
      (tx_info border_tx : UplinkTxInfo) (parameters : Gw.ModulationParameters) (relay_id : Bytes4)
      (gateway_id : List ℕ) (dr channel : ℕ) (wire : List ℕ) (got : MeshPacket) (s t : State F32)
      → IsBlockCipher relay.aes
      → IsMac relay.cmac
      → length relay.conf.mesh.root_key.bytes ≡ 16
      → 0 < length relay.conf.mesh.frequencies
      → SharesMesh relay border
      → length relay.conf.mappings.channels ≤ 256
      → length relay.conf.mappings.data_rates ≤ 256
      → HasByteFactor parameters
      → pl.rx_info ≡ some rx_info
      → pl.tx_info ≡ some tx_info
      → tx_info.modulation ≡ some (record { parameters = some parameters })
      → modulation_to_dr relay.conf.mappings (record { parameters = some parameters }) ≡ ok dr
      → frequency_to_chan relay.conf.mappings tx_info.frequency ≡ ok channel
      → relay.relay_id ≡ some relay_id
      → let v = relayed_payload relay pl rx_info relay_id dr channel s in
        IsSendable (relayed_packet v)
        → seal relay.aes relay.cmac (encryption_key relay) (signing_key relay) (relayed_packet v)
          ≡ ok wire
        → at_border.phy_payload ≡ wire
        → MeshPacket.from_slice wire ≡ ok got
        → Cache.contains payload_cache_eq t.payload_cache.deque (from_packet got) ≡ false
        → at_border.rx_info ≡ some border_rx
        → at_border.tx_info ≡ some border_tx
        → border.gateway_id ≡ some gateway_id
        → border.proxy_reply t.sent ≡ ok tt
        → SentOne relay wire s (relay_uplink_lora_packet relay pl s).1
          × ((handle_mesh border true at_border t).1.sent
              ≡ t.sent
                ++ proxy_event (
                    Gw.Event.uplink_frame (
                      unwrapped border v gateway_id 1 border_rx tx_info.frequency
                        (record { parameters = some (as_sent parameters false) })))
                  ∷ [])
  uplink_delivered pl at_border rx_info border_rx tx_info border_tx parameters relay_id gateway_id
        dr channel wire got s t cipher mac sixteen pos share channels rates factor rx tx modulated
        dr_is channel_is id sendable seals arrives parsed fresh border_rx_is border_tx_is gateway
        proxy =
      let v = relayed_payload relay pl rx_info relay_id dr channel s in
      let p = relayed_packet v in
      let (s', same, build) =
        built relay pl rx_info tx_info _ relay_id dr channel s rx tx modulated dr_is channel_is
          id in
      let way =
        transport relay.aes cipher (encryption_key relay)
          (encryption_key-length relay cipher sixteen) relay.cmac mac (signing_key relay) p
          sendable in
      let wire_is : wire ≡ way.wire = ok_injective (sym seals ∙ way.seals) in
      let got_is : got ≡ way.packet =
        ok_injective (sym parsed ∙ ap MeshPacket.from_slice wire_is ∙ way.reads) in
      let frequency =
        chan_to_frequency-frequency_to_chan relay.conf.mappings tx_info.frequency channels
          channel_is in
      let rate =
        dr_to_modulation-modulation_to_dr relay.conf.mappings parameters false rates factor dr_is in
      (
        relay_sends relay pl p wire s s' build same (plain_uplink v) seals pos,
        border_unwraps border at_border border_rx border_tx got 1 way.packet.mic v gateway_id
            tx_info.frequency _ t (ap MeshPacket.from_slice arrives ∙ parsed)
            (rw (got_is, share.signing, share.cmac) way.validates) fresh
            (rw (got_is, share.encryption, share.aes) way.decrypts) border_rx_is border_tx_is
            gateway (rw share.mappings frequency) (rw share.mappings rate) proxy,
      )
