-- ===== src/Backend.antt =====
-- `src/backend.rs`: the frames that are sent to the two Concentratord processes.
use chirpstack_gateway_mesh.Common.{ℕ, ◌+◌, List, [], ◌∷◌, ◌++◌}
use chirpstack_gateway_mesh.Common.Bytes.{Bytes4}
use chirpstack_gateway_mesh.Common.Result.{ok, ok_or, relay_id_not_set, gateway_id_not_set}
use chirpstack_gateway_mesh.Helpers.Ack.{format_downlink, tx_ack_to_err}
use chirpstack_gateway_mesh.Gw
use chirpstack_gateway_mesh.Gw.{DownlinkFrame, DownlinkTxAck}
use chirpstack_gateway_mesh.Runtime.{
  State, Env, Output, mesh_frame, downlink_frame, proxy_event, gateway_configuration, M, ◌>>=◌,
  ◌>>◌, pure, lift, inspect,
}

module _ {F32 : Type 0} where
  -- One more thing sent.
  unfoldable pub emit : Output F32 → M (State F32) (Unit {0})
  emit o = λ s. pure tt (record s { sent = s.sent ++ o ∷ [] })

  module _ (env : Env F32) where
    -- `send_mesh_command`: the command reaches the mesh Concentratord, and its answer is decoded.
    unfoldable pub ask_mesh : DownlinkFrame → M (State F32) DownlinkTxAck
    unfolding emit
    ask_mesh pl = do
      reply ← inspect (λ s. ok (env.mesh_reply s.sent pl))
      emit (mesh_frame pl)
      lift reply

    unfoldable pub mesh : DownlinkFrame → M (State F32) (Unit {0})
    unfolding ask_mesh format_downlink tx_ack_to_err
    mesh pl = do lift (format_downlink pl); tx_ack ← ask_mesh pl; lift (tx_ack_to_err tx_ack)

    unfoldable pub send_downlink : DownlinkFrame → M (State F32) DownlinkTxAck
    unfolding emit format_downlink
    send_downlink pl = do
      lift (format_downlink pl)
      reply ← inspect (λ s. ok (env.downlink_reply s.sent pl))
      emit (downlink_frame pl)
      lift reply

    unfoldable pub send_gateway_configuration : List ℕ → M (State F32) (Unit {0})
    unfolding emit
    send_gateway_configuration pl = do
      reply ← inspect (λ s. ok (env.configuration_reply s.sent))
      emit (gateway_configuration pl)
      lift reply

    -- `proxy::send_event`.
    unfoldable pub send_event : Gw.Event F32 → M (State F32) (Unit {0})
    unfolding emit
    send_event pl = do inspect (λ s. env.proxy_reply s.sent); emit (proxy_event pl)

    unfoldable pub get_relay_id : M (State F32) Bytes4
    get_relay_id = lift (ok_or env.relay_id relay_id_not_set)

    unfoldable pub get_gateway_id : M (State F32) (List ℕ)
    get_gateway_id = lift (ok_or env.gateway_id gateway_id_not_set)

    -- `random()`.
    unfoldable pub random : M (State F32) ℕ
    random = λ s. pure (env.random s.reads) (record s { reads = s.reads + 1 })
