-- ===== src/Mesh/Answer/Received.antt =====
-- The relay's part in a downlink that answers a relayed uplink.
use chirpstack_gateway_mesh.Common.{
  ℕ, ◌+◌, ◌≡◌, refl, ◌∙◌, ap, true, false, List, [], ◌∷◌, ◌++◌, Option, some, none, arith,
}
use chirpstack_gateway_mesh.Common.Int.{ℤ, pos}
use chirpstack_gateway_mesh.Common.Result.{
  Result, ok, err, panicked, diverged, ok_or, rx_info_is_none, relay_id_not_set,
}
use chirpstack_gateway_mesh.Packets.DownlinkPayload.{DownlinkPayload}
use chirpstack_gateway_mesh.Packets.MeshPacket.{MeshPacket, Payload, mic_eq_iff}
use chirpstack_gateway_mesh.Helpers.Mapping.{dr_to_modulation}
use chirpstack_gateway_mesh.Helpers.TxPower.{index_to_tx_power}
use chirpstack_gateway_mesh.Helpers.Ack.{format_downlink, tx_ack_to_err}
use chirpstack_gateway_mesh.Gw
use chirpstack_gateway_mesh.Gw.{
  UplinkFrame, UplinkRxInfo, DownlinkFrame, DownlinkFrameItem, DownlinkTxInfo, DownlinkTxAck,
  TxAckStatus,
}
use chirpstack_gateway_mesh.Runtime.{State, Env, M, downlink_frame, ◌>>=◌, ◌>>◌, lift, pure, resume}
use chirpstack_gateway_mesh.Runtime.Returns
use chirpstack_gateway_mesh.Backend.{emit, get_relay_id, get_gateway_id, send_downlink, random}
use chirpstack_gateway_mesh.Mesh.Counters.{get_uplink_context}
use chirpstack_gateway_mesh.Mesh.Relay.{
  downlink_frame_of, unwrap_downlink, payload_to_relay, send_on, relay_mesh_packet,
}

module _ {F32 : Type 0} (env : Env F32) where
  -- The frame that the relay sends to the end device.
  abbrev pub device_frame :
      DownlinkPayload → ℕ → ℤ → Gw.Modulation → List ℕ → List ℕ → DownlinkFrame
  device_frame w downlink_id power modulation context gateway_id = record {
    downlink_id = downlink_id;
    items =
        record {
          phy_payload = w.phy_payload;
          tx_info = some (record {
            frequency = w.metadata.frequency;
            power = power;
            modulation = some modulation;
            timing = some (record {
              parameters = some (Gw.TimingParameters.delay (some (pos w.metadata.delay)));
            });
            context = context;
          });
        }
        ∷ [];
    gateway_id = env.hex_encode gateway_id;
  }

  -- The frame is sent, whatever the Concentratord answers.
  sent_whatever :
      (pl : DownlinkFrame) (s : State F32)
      → format_downlink pl ≡ ok tt
      → ((send_downlink env pl >>= λ ack. lift (tx_ack_to_err ack)) s).1.sent
        ≡ s.sent ++ downlink_frame pl ∷ []
  unfolding send_downlink emit ◌>>=◌
  sent_whatever pl s formats = ground (arith, formats)

  module _ (w : DownlinkPayload) (power : ℤ) (modulation : Gw.Modulation)
      (context gateway_id : List ℕ) (s : State F32) where
    device_frame_made :
        index_to_tx_power env.conf.mappings w.metadata.tx_power ≡ ok power
        → dr_to_modulation env.conf.mappings w.metadata.dr true ≡ ok modulation
        → s.uplink_context w.metadata.uplink_id ≡ some context
        → env.gateway_id ≡ some gateway_id
        → downlink_frame_of env w s ≡ (
          ok (device_frame w (env.random s.reads) power modulation context gateway_id),
          record s { reads = s.reads + 1 },
        )
    unfolding downlink_frame_of random get_uplink_context get_gateway_id pure ◌>>=◌
    device_frame_made power_is modulated stored id = rw (power_is, modulated, stored, id) refl

    pub device_frame_sent :
        index_to_tx_power env.conf.mappings w.metadata.tx_power ≡ ok power
        → dr_to_modulation env.conf.mappings w.metadata.dr true ≡ ok modulation
        → s.uplink_context w.metadata.uplink_id ≡ some context
        → env.gateway_id ≡ some gateway_id
        → (unwrap_downlink env w s).1.sent
          ≡ s.sent
            ++ downlink_frame
                (device_frame w (env.random s.reads) power modulation context gateway_id)
              ∷ []
    unfolding unwrap_downlink format_downlink
    device_frame_sent power_is modulated stored id =
        let made = device_frame_made power_is modulated stored id in
        let pl = device_frame w (env.random s.reads) power modulation context gateway_id in
        let rest : DownlinkFrame → M (State F32) (Unit {0}) =
          λ pl. send_downlink env pl >>= λ ack. lift (tx_ack_to_err ack) in
        ap (λ x. x.1.sent)
          (Returns.>>=-ok (downlink_frame_of env w) rest s (ap (λ x. x.0) made)
            ∙ ap (λ x. rest pl x.1) made)
        ∙ sent_whatever pl (record s { reads = s.reads + 1 }) refl

  -- Nothing is done after a packet that ends here.
  pub ends :
      (packet : MeshPacket) (r : Result (Unit {0}) × State F32)
      → (resume (resume r (λ u. pure none)) (send_on env packet)).1 ≡ r.1
  unfolding pure send_on
  ends packet (ok u, s) = refl
  ends packet (err e, s) = refl
  ends packet (panicked, s) = refl
  ends packet (diverged, s) = refl

  -- A relay that is named by a decrypted downlink sends its frame to the end device.
  pub relay_answers :
      (at_relay : UplinkFrame F32) (rx_info : UplinkRxInfo F32) (packet : MeshPacket)
      (w : DownlinkPayload) (s : State F32)
      → packet.payload ≡ Payload.downlink w
      → env.relay_id ≡ some w.relay_id
      → at_relay.rx_info ≡ some rx_info
      → (relay_mesh_packet env at_relay packet s).1.sent ≡ (unwrap_downlink env w s).1.sent
  unfolding relay_mesh_packet get_relay_id ◌>>=◌
  relay_answers at_relay rx_info packet w s payload id received =
      ap (λ x. x.1.sent)
        (Returns.>>=-lift-ok _ _ s (ap (λ o. ok_or o relay_id_not_set) id)
          ∙ Returns.>>=-lift-ok _ _ s (ap (λ o. ok_or o rx_info_is_none) received)
          ∙ ap (λ p. (payload_to_relay env w.relay_id rx_info p >>= send_on env packet) s) payload)
      ∙ ap
          (λ b.
            (((elim b as (λ x. M (State F32) (Option Payload)) [
              | true ↦ unwrap_downlink env w >> pure none
              | false ↦ pure (some (Payload.downlink w))
            ])
                >>= send_on env packet)
              s).1.sent)
          ((mic_eq_iff w.relay_id w.relay_id).1 refl)
      ∙ ap (λ t. t.sent) (ends packet (unwrap_downlink env w s))
