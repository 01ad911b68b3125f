-- ===== src/Mesh/Answer/Sent.antt =====
-- The Border Gateway's part in a downlink that answers a relayed uplink.
use chirpstack_gateway_mesh.Common.{
  ℕ, ◌<◌, ◌≡◌, refl, sym, ◌∙◌, ap, ap₂, true, false, List, [], ◌∷◌, ◌++◌, map, Option, some, none,
  length,
}
use chirpstack_gateway_mesh.Common.Int.{ℤ}
use chirpstack_gateway_mesh.Common.Result
use chirpstack_gateway_mesh.Common.Result.{
  Result, ok, err, panicked, diverged, ok_or, ok_injective, rx_info_is_none, tx_info_is_none,
  modulation_is_none, timing_is_none, relay_id_not_set, gateway_id_not_set,
}
use chirpstack_gateway_mesh.Packets.PayloadType
use chirpstack_gateway_mesh.Packets.UplinkPayload.{UplinkPayload}
use chirpstack_gateway_mesh.Packets.DownlinkPayload.{DownlinkPayload}
use chirpstack_gateway_mesh.Packets.MeshPacket
use chirpstack_gateway_mesh.Packets.MeshPacket.{
  MeshPacket, Payload, IsMac, IsSendable, seal, transport, mic_eq_iff,
}
use chirpstack_gateway_mesh.Helpers.Mapping.{modulation_to_dr}
use chirpstack_gateway_mesh.Helpers.TxPower.{tx_power_to_index}
use chirpstack_gateway_mesh.Helpers.Ack.{format_downlink, tx_ack_to_err}
use chirpstack_gateway_mesh.Gw
use chirpstack_gateway_mesh.Gw.{
  UplinkFrame, UplinkRxInfo, DownlinkFrame, DownlinkFrameItem, DownlinkTxInfo, DownlinkTxAck,
  TxAckStatus,
}
use chirpstack_gateway_mesh.Runtime.{State, Env, M, mesh_frame, ◌>>=◌, lift, pure, attempt}
use chirpstack_gateway_mesh.Runtime.Returns
use chirpstack_gateway_mesh.Backend.{mesh, ask_mesh, emit}
use chirpstack_gateway_mesh.Mesh.Send.{mesh_frame_of, mesh_tx_info, signing_key, encryption_key}
use chirpstack_gateway_mesh.Mesh.Proxy.{relay_context, proxy_downlink_lora_packet}
use chirpstack_gateway_mesh.Mesh.Context.{context_of-relay_context}
use chirpstack_gateway_mesh.Mesh.Downlink.{
  delay_seconds, delay_of, context_of, is_relay_context, packet_of, item_frame, relay_items,
  relay_downlink_lora_packet, proxy_or_relay, handle_items, handle_downlink,
}
use chirpstack_gateway_mesh.Mesh.Forward.{SentOne, framed, mesh_frame_with}

-- The mesh packet around the payload.
abbrev pub answer_packet : DownlinkPayload → MeshPacket
answer_packet w = record {
  mhdr = record { payload_type = PayloadType.downlink; hop_count = 1 };
  payload = Payload.downlink w;
  mic = none;
}

-- What the Border Gateway makes of a downlink that answers the uplink `v`.
abbrev pub answer_payload :
    UplinkPayload → DownlinkFrameItem → DownlinkTxInfo → ℕ → ℕ → ℕ → DownlinkPayload
answer_payload v item tx_info dr tx_power delay = record {
  phy_payload = item.phy_payload;
  relay_id = v.relay_id;
  metadata = record {
    uplink_id = v.metadata.uplink_id;
    dr = dr;
    frequency = tx_info.frequency;
    tx_power = tx_power;
    delay = delay;
  };
}

module _ {F32 : Type 0} (env : Env F32) where
  pub packed :
      (v : UplinkPayload) (item : DownlinkFrameItem) (tx_info : DownlinkTxInfo)
      (modulation : Gw.Modulation) (seconds : Option ℤ) (dr tx_power : ℕ) (s : State F32)
      → v.metadata.uplink_id < 65536
      → tx_info.context ≡ relay_context v
      → tx_info.modulation ≡ some modulation
      → tx_info.timing ≡ some (record { parameters = some (Gw.TimingParameters.delay seconds) })
      → modulation_to_dr env.conf.mappings modulation ≡ ok dr
      → tx_power_to_index env.conf.mappings tx_info.power ≡ ok tx_power
      → packet_of env item tx_info s ≡ (
        MeshPacket.set_mic env.cmac
            (signing_key env)
            (answer_packet (answer_payload v item tx_info dr tx_power (delay_seconds seconds))),
        s,
      )
  unfolding packet_of delay_of lift
  packed v item tx_info modulation seconds dr tx_power s small context modulated timed dr_is
        power_is =
      let (relayed, (ctx, read, id, uplink_id)) = context_of-relay_context v small in
      Returns.>>=-lift-ok _ _ s (ap (λ o. ok_or o modulation_is_none) modulated)
      ∙ Returns.>>=-lift-ok _ _ s (ap (λ o. ok_or o timing_is_none) timed)
      ∙ Returns.>>=-lift-ok _ _ s refl
      ∙ Returns.>>=-lift-ok _ _ s (ap context_of context ∙ read)
      ∙ Returns.>>=-lift-ok _ _ s dr_is
      ∙ Returns.>>=-lift-ok _ _ s power_is
      ∙ ap₂
          (λ r u. (
            MeshPacket.set_mic env.cmac (signing_key env) (
                answer_packet (record {
                  phy_payload = item.phy_payload;
                  relay_id = r;
                  metadata = record {
                    uplink_id = u;
                    dr = dr;
                    frequency = tx_info.frequency;
                    tx_power = tx_power;
                    delay = delay_seconds seconds;
                  };
                })),
            s,
          ))
          id uplink_id

  -- The Concentratord acknowledges the frame.
  acknowledged :
      (pl : DownlinkFrame) (ack : DownlinkTxAck) (s : State F32)
      → format_downlink pl ≡ ok tt
      → env.mesh_reply s.sent pl ≡ ok ack
      → tx_ack_to_err ack ≡ ok tt
      → attempt (mesh env pl) s ≡ (ok (some tt), record s { sent = s.sent ++ mesh_frame pl ∷ [] })
  unfolding mesh ask_mesh emit attempt ◌>>=◌
  acknowledged pl ack s formats reply acks = rw (formats, reply, acks) refl

  -- The first item is sent, and its status is the only one that is not ignored.
  pub first_sent :
      (downlink_id : ℕ) (item : DownlinkFrameItem) (items : List DownlinkFrameItem)
      (tx_info : DownlinkTxInfo) (p : MeshPacket) (wire : List ℕ) (ack : DownlinkTxAck)
      (s : State F32)
      → item.tx_info ≡ some tx_info
      → packet_of env item tx_info s ≡ (MeshPacket.set_mic env.cmac (signing_key env) p, s)
      → MeshPacket.encrypt env.aes (encryption_key env) p ≡ ok p
      → seal env.aes env.cmac (encryption_key env) (signing_key env) p ≡ ok wire
      → 0 < length env.conf.mesh.frequencies
      → ((pl : DownlinkFrame) → env.mesh_reply s.sent pl ≡ ok ack)
      → tx_ack_to_err ack ≡ ok tt
      → ((relay_items env downlink_id (item ∷ items) s).0
          ≡ ok (TxAckStatus.ack_ok ∷ map (λ i. TxAckStatus.ignored) items))
        × SentOne env wire s (relay_items env downlink_id (item ∷ items) s).1
  unfolding relay_items item_frame seal format_downlink pure mesh_tx_info
  first_sent downlink_id item items tx_info p wire ack s has packs plain seals some_frequency reply
        acks =
      let (q, encrypted, rest) = Result.>>=-eq-ok _ _ seals in
      let (r, signed, writes) = Result.>>=-eq-ok _ _ rest in
      let signed' : MeshPacket.set_mic env.cmac (signing_key env) p ≡ ok r =
        ap (MeshPacket.set_mic env.cmac (signing_key env)) (ok_injective (sym plain ∙ encrypted))
        ∙ signed in
      let (t, frequency, same, built) = framed env downlink_id r wire s writes some_frequency in
      let pl = mesh_frame_with env downlink_id wire frequency in
      let built' : item_frame env downlink_id item s ≡ (ok pl, t) =
        Returns.>>=-lift-ok _ _ s (ap (λ o. ok_or o tx_info_is_none) has)
        ∙ Returns.>>=-ok _ _ s (ap (λ x. x.0) packs ∙ signed')
        ∙ ap (λ x. mesh_frame_of env downlink_id r x.1) packs
        ∙ built in
      let sends = acknowledged pl ack t refl (ap (λ h. env.mesh_reply h pl) same ∙ reply pl) acks in
      let send_item : M (State F32) (List TxAckStatus) = attempt (mesh env pl) >>= λ sent.
      elim sent [
        | some u ↦ pure (TxAckStatus.ack_ok ∷ map (λ i. TxAckStatus.ignored) items)
        | none ↦ relay_items env downlink_id items >>= λ statuses.
            pure (TxAckStatus.internal_error ∷ statuses)
      ] in
      let run : relay_items env downlink_id (item ∷ items) s ≡ (
        ok (TxAckStatus.ack_ok ∷ map (λ i. TxAckStatus.ignored) items),
        record t { sent = t.sent ++ mesh_frame pl ∷ [] },
      ) =
        Returns.>>=-ok (item_frame env downlink_id item) _ s (ap (λ x. x.0) built')
        ∙ ap (λ x. send_item x.1) built'
        ∙ Returns.>>=-ok (attempt (mesh env pl)) _ t (ap (λ x. x.0) sends)
        ∙ ap (λ x. pure (TxAckStatus.ack_ok ∷ map (λ i. TxAckStatus.ignored) items) x.1) sends in
      (
        ap (λ x. x.0) run,
        (
          pl,
          frequency,
          refl,
          ap (λ x. x.1.sent) run ∙ ap (λ sent. sent ++ mesh_frame pl ∷ []) same,
        ),
      )

  -- A downlink with the context of a relayed uplink is relayed.
  pub answered :
      (pl : DownlinkFrame) (item : DownlinkFrameItem) (items : List DownlinkFrameItem)
      (tx_info : DownlinkTxInfo) (s : State F32)
      → pl.items ≡ item ∷ items
      → item.tx_info ≡ some tx_info
      → is_relay_context tx_info.context ≡ true
      → handle_downlink env pl s
        ≡ (relay_items env pl.downlink_id (item ∷ items) >>= λ statuses. pure (record {
          gateway_id = pl.gateway_id;
          downlink_id = pl.downlink_id;
          items = statuses;
        }))
            s
  unfolding handle_downlink handle_items proxy_or_relay relay_downlink_lora_packet
  answered pl item items tx_info s first has relayed =
      ap (λ l. handle_items env pl l s) first
      ∙ Returns.>>=-lift-ok _ _ s (ap (λ o. ok_or o tx_info_is_none) has)
      ∙ ap
          (λ b.
            (elim b as (λ x. M (State F32) DownlinkTxAck) [
              | true ↦ relay_downlink_lora_packet env pl
              | false ↦ proxy_downlink_lora_packet env pl
            ])
              s)
          relayed
      ∙ ap (λ l. relay l s) first
    where
      relay : List DownlinkFrameItem → M (State F32) DownlinkTxAck
      relay l = relay_items env pl.downlink_id l >>= λ statuses.
          pure
            (record { gateway_id = pl.gateway_id; downlink_id = pl.downlink_id; items = statuses })
