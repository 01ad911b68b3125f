-- ===== src/Node/Stable.antt =====
-- A property of the state that the primitive steps keep is kept by every handler.
use chirpstack_gateway_mesh.Common.{
  ℕ, ◌≤◌, ◌≡◌, ap, sym, ◌∙◌, List, [], ◌∷◌, Option, none, some, inl, inr, arith, ltb,
}
use chirpstack_gateway_mesh.Common.Bytes.{Bytes4}
use chirpstack_gateway_mesh.Common.Time.{SystemTime}
use chirpstack_gateway_mesh.Common.Result.{ok, reject_if, ok_injective, max_hop_count_exceeded}
use chirpstack_gateway_mesh.Packets.Event.{Event}
use chirpstack_gateway_mesh.Packets.Command.{Command}
use chirpstack_gateway_mesh.Packets.DownlinkPayload.{DownlinkPayload}
use chirpstack_gateway_mesh.Packets.CommandPayload.{CommandPayload}
use chirpstack_gateway_mesh.Packets.MeshPacket.{MeshPacket, Payload}
use chirpstack_gateway_mesh.Gw.{UplinkFrame, UplinkRxInfo, DownlinkFrame}
use chirpstack_gateway_mesh.Runtime.{
  State, Env, mesh_frame, downlink_frame, gateway_configuration, ◌>>=◌, pure, lift,
}
use chirpstack_gateway_mesh.Runtime.Returns
use chirpstack_gateway_mesh.Runtime.Keeps.{
  Keeps-split, Keeps, Keeps-pure, Keeps-lift, Keeps-bind, Keeps-bind-lift, Keeps-bind_result,
  keeps_rules,
}
use chirpstack_gateway_mesh.Backend.{
  emit, ask_mesh, mesh, send_downlink, send_gateway_configuration, get_relay_id, random,
}
use chirpstack_gateway_mesh.Commands.{set_last_timestamp, execute_all, execute_commands}
use chirpstack_gateway_mesh.Events.{now, send_events, event_packet, get_events, report_events}
use chirpstack_gateway_mesh.Mesh.Counters.{get_mesh_frequency, store_uplink_context}
use chirpstack_gateway_mesh.Mesh.Send.{mesh_frame_of}
use chirpstack_gateway_mesh.Mesh.Relay.{
  uplink_packet, relay_uplink_lora_packet, downlink_frame_of, unwrap_downlink, respond, execute,
  payload_to_relay, retransmit, next_hop, send_on, relay_mesh_packet,
}
use chirpstack_gateway_mesh.Node.Frames.{
  IsMeshFrame, HasHops, encrypt-mhdr, set_mic-mhdr, mesh_frame_of-IsMeshFrame,
}

-- The primitive steps keep the property; of the frames for the mesh, those around a packet with hops
-- left.
pub record IsStable {F32 : Type 0} (env : Env F32) (P : State F32 → Type 0) : Type 0 where
  pub random : Keeps P (random env)
  pub now : Keeps P (now env)
  pub frequency : Keeps P (get_mesh_frequency env.conf.mesh.frequencies)
  pub store : (ctx : List ℕ) → Keeps P (store_uplink_context ctx)
  pub timestamp : (ts : SystemTime) → Keeps P (set_last_timestamp ts)
  pub mesh : (pl : DownlinkFrame) → IsMeshFrame env pl → Keeps P (emit (mesh_frame pl))
  pub downlink : (pl : DownlinkFrame) → Keeps P (emit (downlink_frame pl))
  pub configuration : (pl : List ℕ) → Keeps P (emit (gateway_configuration pl))

not_rejected :
    (limit hops : ℕ) → reject_if (ltb limit hops) max_hop_count_exceeded ≡ ok tt → hops ≤ limit
not_rejected limit hops e = ground arith

-- A relayed uplink starts with one hop.
uplink_packet-hop_count :
    {F32 : Type 0} (env : Env F32) (pl : UplinkFrame F32) (s : State F32) {p : MeshPacket}
    → (uplink_packet env pl s).0 ≡ ok p
    → p.mhdr.hop_count ≡ 1
unfolding uplink_packet lift pure
uplink_packet-hop_count env pl s e =
    let (rx, e0, r0) = Returns.>>=-eq-ok _ _ s e in
    let (tx, e1, r1) = Returns.>>=-eq-ok _ _ _ r0 in
    let (m, e2, r2) = Returns.>>=-eq-ok _ _ _ r1 in
    let (id, e3, r3) = Returns.>>=-eq-ok _ _ _ r2 in
    let (dr, e4, r4) = Returns.>>=-eq-ok _ _ _ r3 in
    let (ch, e5, r5) = Returns.>>=-eq-ok _ _ _ r4 in
    let (re, e6, r6) = Returns.>>=-eq-ok _ _ _ r5 in
    ap (λ p. p.mhdr.hop_count) (sym (ok_injective r6))

module _ {F32 : Type 0} (env : Env F32) {P : State F32 → Type 0} (stable : IsStable env P) where
  random-Keeps : Keeps P (random env)
  random-Keeps = stable.random

  pub mesh-Keeps : (pl : DownlinkFrame) → IsMeshFrame env pl → Keeps P (mesh env pl)
  unfolding mesh ask_mesh
  mesh-Keeps pl h = search (keeps_rules, stable.mesh)

  pub frame-Keeps :
      (downlink_id : ℕ) (packet : MeshPacket) → Keeps P (mesh_frame_of env downlink_id packet)
  unfolding mesh_frame_of
  frame-Keeps downlink_id packet = search keeps_rules

  -- The end of every sender of a mesh packet.
  pub transmit-Keeps :
      (packet : MeshPacket)
      → HasHops env packet
      → Keeps P (random env >>= λ id. mesh_frame_of env id packet >>= λ pl. mesh env pl)
  transmit-Keeps packet hops = Keeps-bind _ _ stable.random (λ id.
      Keeps-bind_result _ _ (frame-Keeps id packet)
        (λ pl s e. mesh-Keeps pl (mesh_frame_of-IsMeshFrame env id packet s hops e)))

  pub send_downlink-Keeps : (pl : DownlinkFrame) → Keeps P (send_downlink env pl)
  unfolding send_downlink
  send_downlink-Keeps pl = search (keeps_rules, stable.downlink)

  relay_id-Keeps : Keeps P (get_relay_id env)
  unfolding get_relay_id
  relay_id-Keeps = Keeps-lift _

  execute_all-Keeps : (cmds : List Command) → Keeps P (execute_all env cmds)
  unfolding execute_all
  execute_all-Keeps [] = Keeps-pure _
  execute_all-Keeps (c ∷ cmds) = let rest = execute_all-Keeps cmds in search keeps_rules

  execute_commands-Keeps : (v : CommandPayload) → Keeps P (execute_commands env v)
  unfolding execute_commands
  execute_commands-Keeps v = search (keeps_rules, stable.timestamp, execute_all-Keeps)

  pub send_events-Keeps : (es : List Event) → Keeps P (send_events env es)
  unfolding send_events event_packet
  send_events-Keeps es = Keeps-bind _ _ stable.now λ timestamp.
      Keeps-bind _ _ relay_id-Keeps λ relay_id. Keeps-bind-lift _ _ λ p encrypted.
        Keeps-bind-lift _ _ λ q signed.
          transmit-Keeps q
            (inl (ap (λ h. h.hop_count) (set_mic-mhdr _ _ p signed ∙ encrypt-mhdr _ _ _ encrypted)))

  pub configuration-Keeps : (pl : List ℕ) → Keeps P (send_gateway_configuration env pl)
  unfolding send_gateway_configuration
  configuration-Keeps pl = search (keeps_rules, stable.configuration)

  get_events-Keeps : (typs : List ℕ) → Keeps P (get_events env typs)
  unfolding get_events
  get_events-Keeps [] = Keeps-pure _
  get_events-Keeps (t ∷ typs) = let rest = get_events-Keeps typs in search keeps_rules

  pub report_events-Keeps : (typs : List ℕ) → Keeps P (report_events env typs)
  unfolding report_events
  report_events-Keeps typs = search (keeps_rules, get_events-Keeps, send_events-Keeps)

  uplink_packet-Keeps : (pl : UplinkFrame F32) → Keeps P (uplink_packet env pl)
  unfolding uplink_packet
  uplink_packet-Keeps pl = search (keeps_rules, stable.store) depth 9

  downlink_frame_of-Keeps : (v : DownlinkPayload) → Keeps P (downlink_frame_of env v)
  unfolding downlink_frame_of
  downlink_frame_of-Keeps v = search (keeps_rules, random-Keeps) depth 9

  unwrap_downlink-Keeps : (v : DownlinkPayload) → Keeps P (unwrap_downlink env v)
  unfolding unwrap_downlink
  unwrap_downlink-Keeps v = search (keeps_rules, downlink_frame_of-Keeps, send_downlink-Keeps)

  respond-Keeps : (es : List Event) → Keeps P (respond env es)
  unfolding respond
  respond-Keeps [] = Keeps-pure _
  respond-Keeps (e ∷ es) = send_events-Keeps (e ∷ es)

  execute-Keeps : (v : CommandPayload) → Keeps P (execute env v)
  unfolding execute
  execute-Keeps v = search (keeps_rules, execute_commands-Keeps, respond-Keeps)

  payload_to_relay-Keeps :
      (id : Bytes4) (rx_info : UplinkRxInfo F32) (p : Payload)
      → Keeps P (payload_to_relay env id rx_info p)
  unfolding payload_to_relay
  payload_to_relay-Keeps id rx_info (Payload.uplink v) =
      Keeps-split _ _ _ (Keeps-pure _) (Keeps-pure _)
  payload_to_relay-Keeps id rx_info (Payload.event v) =
      Keeps-split _ _ _ (Keeps-pure _) (Keeps-pure _)
  payload_to_relay-Keeps id rx_info (Payload.downlink v) =
      Keeps-split _ _ _ (Keeps-bind _ _ (unwrap_downlink-Keeps v) (λ u. Keeps-pure _))
        (Keeps-pure _)
  payload_to_relay-Keeps id rx_info (Payload.command v) =
      Keeps-split _ _ _ (Keeps-bind _ _ (execute-Keeps v) (λ u. Keeps-pure _)) (Keeps-pure _)

  retransmit-Keeps : (packet : MeshPacket) → Keeps P (retransmit env packet)
  unfolding retransmit
  retransmit-Keeps packet = Keeps-bind-lift _ _ λ p encrypted. Keeps-bind-lift _ _ λ q signed.
      Keeps-bind-lift _ _ λ u within.
        transmit-Keeps q (inr (not_rejected (env.conf.mesh.max_hop_count) q.mhdr.hop_count within))

  send_on-Keeps :
      (packet : MeshPacket) (payload : Option Payload) → Keeps P (send_on env packet payload)
  unfolding send_on
  send_on-Keeps packet none = Keeps-pure _
  send_on-Keeps packet (some payload) = retransmit-Keeps (next_hop packet payload)

  pub relay_mesh_packet-Keeps :
      (pl : UplinkFrame F32) (packet : MeshPacket) → Keeps P (relay_mesh_packet env pl packet)
  unfolding relay_mesh_packet
  relay_mesh_packet-Keeps pl packet =
      search (keeps_rules, payload_to_relay-Keeps, send_on-Keeps) depth 9

  pub relay_uplink-Keeps : (pl : UplinkFrame F32) → Keeps P (relay_uplink_lora_packet env pl)
  unfolding relay_uplink_lora_packet
  relay_uplink-Keeps pl = Keeps-bind_result _ _ (uplink_packet-Keeps pl) λ p s built.
      Keeps-bind-lift _ _ λ q signed. transmit-Keeps q (
        inl (
          ap (λ h. h.hop_count) (set_mic-mhdr _ _ p signed)
          ∙ uplink_packet-hop_count env pl s built))
