-- ===== src/Node/Settled/Relay.antt =====
-- The handlers of a relay return.
use chirpstack_gateway_mesh.Common.{ℕ, true, List, [], ◌∷◌, Option, none, some, All}
use chirpstack_gateway_mesh.Common.Bytes.{Bytes4}
use chirpstack_gateway_mesh.Common.Time.{SystemTime}
use chirpstack_gateway_mesh.Common.Result.{
  IsSettled, IsSettled->>=, IsSettled-ok_or, IsSettled-reject_if, IsSettled-map_ok,
  no_uplink_context,
}
use chirpstack_gateway_mesh.Packets.Event.{Event}
use chirpstack_gateway_mesh.Packets.Command
use chirpstack_gateway_mesh.Packets.Command.{Command}
use chirpstack_gateway_mesh.Packets.DownlinkPayload.{DownlinkPayload}
use chirpstack_gateway_mesh.Packets.CommandPayload.{CommandPayload}
use chirpstack_gateway_mesh.Packets.MeshPacket
use chirpstack_gateway_mesh.Packets.MeshPacket.{MeshPacket, Payload, IsMac, IsPlain}
use chirpstack_gateway_mesh.Gw.{UplinkFrame, UplinkRxInfo}
use chirpstack_gateway_mesh.Helpers.Settled.{
  tx_ack_to_err-IsSettled, frequency_to_chan-IsSettled, modulation_to_dr-IsSettled,
  dr_to_modulation-IsSettled, index_to_tx_power-IsSettled,
}
use chirpstack_gateway_mesh.Runtime.{Env}
use chirpstack_gateway_mesh.Runtime.Settles.{
  Settles, Settles-pure, Settles-lift, Settles-inspect, Settles-attempt, Settles-split,
  Settles-bind, Settles-bind-lift,
}
use chirpstack_gateway_mesh.Commands.{
  execute_all, execute_commands, check_timestamp, execute_command, execute_proprietary, run_args,
}
use chirpstack_gateway_mesh.Mesh.Counters.{get_uplink_context}
use chirpstack_gateway_mesh.Mesh.Send.{signing_key, encryption_key}
use chirpstack_gateway_mesh.Mesh.Relay.{
  uplink_packet, relay_uplink_lora_packet, downlink_frame_of, unwrap_downlink, respond, execute,
  payload_to_relay, retransmit, send_on, relay_mesh_packet,
}
use chirpstack_gateway_mesh.Node.Settled.Senders.{
  IsResponsive, store-Settles, timestamp-Settles, random-Settles, relay_id-Settles,
  gateway_id-Settles, transmit-Settles, send_downlink-Settles, send_events-Settles,
}

module _ {F32 : Type 0} (env : Env F32) (resp : IsResponsive env) where
  uplink_packet-Settles : (pl : UplinkFrame F32) → Settles (uplink_packet env pl)
  unfolding uplink_packet
  uplink_packet-Settles pl = Settles-bind _ _ (Settles-lift _ (IsSettled-ok_or pl.rx_info _)) λ rx.
      Settles-bind _ _ (Settles-lift _ (IsSettled-ok_or pl.tx_info _)) λ tx.
        Settles-bind _ _ (Settles-lift _ (IsSettled-ok_or tx.modulation _)) λ m.
          Settles-bind _ _ (store-Settles _) λ id.
            Settles-bind _ _ (Settles-lift _ (modulation_to_dr-IsSettled env.conf.mappings m)) λ dr.
              Settles-bind _ _
                (Settles-lift _ (frequency_to_chan-IsSettled env.conf.mappings tx.frequency))
                λ ch. Settles-bind _ _ (relay_id-Settles env) λ re. Settles-pure _

  pub relay_uplink-Settles : (pl : UplinkFrame F32) → Settles (relay_uplink_lora_packet env pl)
  unfolding relay_uplink_lora_packet
  relay_uplink-Settles pl = Settles-bind _ _ (uplink_packet-Settles pl) λ p.
      Settles-bind-lift _ _ (MeshPacket.set_mic-IsSettled env.cmac resp.mac (signing_key env) p)
        λ q e. transmit-Settles env resp q

  downlink_frame_of-Settles : (v : DownlinkPayload) → Settles (downlink_frame_of env v)
  unfolding downlink_frame_of get_uplink_context
  downlink_frame_of-Settles v = Settles-bind _ _ (random-Settles env) λ id.
      Settles-bind _ _
        (Settles-lift _ (index_to_tx_power-IsSettled env.conf.mappings v.metadata.tx_power))
        λ p.
          Settles-bind _ _
            (Settles-lift _ (dr_to_modulation-IsSettled env.conf.mappings v.metadata.dr true))
            λ m.
              Settles-bind _ _
                (Settles-inspect _
                  (λ s. IsSettled-ok_or (s.uplink_context v.metadata.uplink_id) no_uplink_context))
                λ c. Settles-bind _ _ (gateway_id-Settles env) λ g. Settles-pure _

  unwrap_downlink-Settles : (v : DownlinkPayload) → Settles (unwrap_downlink env v)
  unfolding unwrap_downlink
  unwrap_downlink-Settles v = Settles-bind _ _ (downlink_frame_of-Settles v) λ pl.
      Settles-bind _ _ (send_downlink-Settles env resp pl)
        λ ack. Settles-lift _ (tx_ack_to_err-IsSettled ack)

  run_args-IsSettled :
      (typ : ℕ) (value : List ℕ) (args : List (List ℕ)) → IsSettled (run_args env typ value args)
  unfolding run_args
  run_args-IsSettled typ value [] = tt
  run_args-IsSettled typ value (arg ∷ args) = IsSettled-map_ok _ _ (resp.run (arg ∷ args) value)

  -- A command that is not ciphertext is executed, or fails with an error.
  execute_command-IsSettled : (c : Command) → Command.IsPlain c → IsSettled (execute_command env c)
  unfolding execute_command execute_proprietary
  execute_command-IsSettled (Command.proprietary t v) h =
      IsSettled->>= _ _ (IsSettled-ok_or env.commands _)
        λ commands. IsSettled->>= _ _ (IsSettled-ok_or (commands t) _) (run_args-IsSettled t v)
  execute_command-IsSettled (Command.encrypted v) h = absurd h

  execute_all-Settles :
      (cmds : List Command) → All Command.IsPlain cmds → Settles (execute_all env cmds)
  unfolding execute_all
  execute_all-Settles [] h = Settles-pure _
  execute_all-Settles (c ∷ cmds) h =
      Settles-bind _ _ (Settles-attempt _ (Settles-lift _ (execute_command-IsSettled c h.0)))
        λ r. Settles-bind _ _ (execute_all-Settles cmds h.1) λ out. Settles-pure _

  check_timestamp-IsSettled :
      (last : Option SystemTime) (t : SystemTime) → IsSettled (check_timestamp last t)
  unfolding check_timestamp
  check_timestamp-IsSettled none t = tt
  check_timestamp-IsSettled (some last) t = IsSettled-reject_if _ _

  respond-Settles : (es : List Event) → Settles (respond env es)
  unfolding respond
  respond-Settles [] = Settles-pure _
  respond-Settles (e ∷ es) = send_events-Settles env resp (e ∷ es)

  execute-Settles : (v : CommandPayload) → All Command.IsPlain v.commands → Settles (execute env v)
  unfolding execute execute_commands
  execute-Settles v h =
      Settles-bind _ _
        (Settles-bind _ _
          (Settles-inspect _ (λ s. check_timestamp-IsSettled s.last_timestamp v.timestamp))
          λ u.
            Settles-bind _ _ (timestamp-Settles v.timestamp) λ w. execute_all-Settles v.commands h)
        respond-Settles

  payload_to_relay-Settles :
      (id : Bytes4) (rx_info : UplinkRxInfo F32) (p : Payload)
      → IsPlain p
      → Settles (payload_to_relay env id rx_info p)
  unfolding payload_to_relay
  payload_to_relay-Settles id rx_info (Payload.uplink v) h =
      Settles-split _ _ _ (Settles-pure _) (Settles-pure _)
  payload_to_relay-Settles id rx_info (Payload.event v) h =
      Settles-split _ _ _ (Settles-pure _) (Settles-pure _)
  payload_to_relay-Settles id rx_info (Payload.downlink v) h =
      Settles-split _ _ _ (Settles-bind _ _ (unwrap_downlink-Settles v) λ u. Settles-pure _)
        (Settles-pure _)
  payload_to_relay-Settles id rx_info (Payload.command v) h =
      Settles-split _ _ _ (Settles-bind _ _ (execute-Settles v h) λ u. Settles-pure _)
        (Settles-pure _)

  send_on-Settles :
      (packet : MeshPacket) (payload : Option Payload) → Settles (send_on env packet payload)
  unfolding send_on retransmit
  send_on-Settles packet none = Settles-pure _
  send_on-Settles packet (some payload) =
      Settles-bind-lift _ _ (MeshPacket.encrypt-IsSettled env.aes (encryption_key env) _) λ p e.
        Settles-bind-lift _ _ (MeshPacket.set_mic-IsSettled env.cmac resp.mac (signing_key env) p)
          λ q f. Settles-bind-lift _ _ (IsSettled-reject_if _ _) λ u g. transmit-Settles env resp q

  pub relay_mesh_packet-Settles :
      (pl : UplinkFrame F32) (packet : MeshPacket)
      → IsPlain packet.payload
      → Settles (relay_mesh_packet env pl packet)
  unfolding relay_mesh_packet
  relay_mesh_packet-Settles pl packet h = Settles-bind _ _ (relay_id-Settles env) λ id.
      Settles-bind _ _ (Settles-lift _ (IsSettled-ok_or pl.rx_info _)) λ rx.
        Settles-bind _ _ (payload_to_relay-Settles id rx packet.payload h) (send_on-Settles packet)
