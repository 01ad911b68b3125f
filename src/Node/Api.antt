-- ===== src/Node/Api.antt =====
-- The handlers of the proxy API's commands keep what the primitive steps keep.
use chirpstack_gateway_mesh.Common.{ℕ, ◌≡◌, ap, ◌∙◌, List, [], ◌∷◌, Option, none, some, inl, map}
use chirpstack_gateway_mesh.Common.Result.{ok}
use chirpstack_gateway_mesh.Packets.MeshPacket.{MeshPacket}
use chirpstack_gateway_mesh.Gw
use chirpstack_gateway_mesh.Gw.{
  UplinkFrame, UplinkRxInfo, UplinkTxInfo, DownlinkFrame, DownlinkFrameItem,
}
use chirpstack_gateway_mesh.Runtime.{State, Env, ◌>>=◌, pure, lift}
use chirpstack_gateway_mesh.Runtime.Returns
use chirpstack_gateway_mesh.Runtime.Keeps.{
  Keeps-split, Keeps, Keeps-pure, Keeps-lift, Keeps-attempt, Keeps-bind, Keeps-bind-lift,
  Keeps-bind_result, keeps_rules,
}
use chirpstack_gateway_mesh.Backend.{get_gateway_id}
use chirpstack_gateway_mesh.Mesh.Proxy.{proxy_downlink_lora_packet}
use chirpstack_gateway_mesh.Mesh.Downlink.{
  packet_of, item_frame, relay_items, relay_downlink_lora_packet, proxy_or_relay, handle_items,
  handle_downlink, is_relay_context,
}
use chirpstack_gateway_mesh.Mesh.Handle.{send_mesh_command, command_packet}
use chirpstack_gateway_mesh.Node.Frames.{
  IsMeshFrame, encrypt-mhdr, set_mic-mhdr, mesh_frame_of-IsMeshFrame,
}
use chirpstack_gateway_mesh.Node.Stable.{
  IsStable, send_downlink-Keeps, mesh-Keeps, frame-Keeps, transmit-Keeps, configuration-Keeps,
}
use chirpstack_gateway_mesh.Proxy.{handle_command}

-- A relayed downlink starts with one hop.
packet_of-hop_count :
    {F32 : Type 0} (env : Env F32) (item : DownlinkFrameItem) (tx_info : Gw.DownlinkTxInfo)
    (s : State F32) {p : MeshPacket}
    → (packet_of env item tx_info s).0 ≡ ok p
    → p.mhdr.hop_count ≡ 1
unfolding packet_of lift
packet_of-hop_count env item tx_info s e =
    let (m, e0, r0) = Returns.>>=-eq-ok _ _ s e in
    let (t, e1, r1) = Returns.>>=-eq-ok _ _ _ r0 in
    let (d, e2, r2) = Returns.>>=-eq-ok _ _ _ r1 in
    let (c, e3, r3) = Returns.>>=-eq-ok _ _ _ r2 in
    let (dr, e4, r4) = Returns.>>=-eq-ok _ _ _ r3 in
    let (tx, e5, r5) = Returns.>>=-eq-ok _ _ _ r4 in ap (λ h. h.hop_count) (set_mic-mhdr _ _ _ r5)

-- The frame of an item is around a packet with one hop.
item_frame-IsMeshFrame :
    {F32 : Type 0} (env : Env F32) (id : ℕ) (item : DownlinkFrameItem) (s : State F32)
    {pl : DownlinkFrame}
    → (item_frame env id item s).0 ≡ ok pl
    → IsMeshFrame env pl
unfolding item_frame
item_frame-IsMeshFrame env id item s e =
    let (tx, e0, r0) = Returns.>>=-eq-ok _ _ s e in
    let (p, e1, r1) = Returns.>>=-eq-ok _ _ _ r0 in
    mesh_frame_of-IsMeshFrame env id p _ (inl (packet_of-hop_count env item tx _ e1)) r1

module _ {F32 : Type 0} (env : Env F32) {P : State F32 → Type 0} (stable : IsStable env P) where
  packet_of-Keeps :
      (item : DownlinkFrameItem) (t : Gw.DownlinkTxInfo) → Keeps P (packet_of env item t)
  unfolding packet_of
  packet_of-Keeps item t = search keeps_rules depth 9

  item_frame-Keeps : (id : ℕ) (item : DownlinkFrameItem) → Keeps P (item_frame env id item)
  unfolding item_frame
  item_frame-Keeps id item =
      Keeps-bind _ _ (Keeps-lift _)
        λ t. Keeps-bind _ _ (packet_of-Keeps item t) (λ p. frame-Keeps env stable id p)

  -- What becomes of the items after the first, whether or not that was sent.
  rest_of_items-Keeps :
      (id : ℕ) (items : List DownlinkFrameItem)
      → Keeps P (relay_items env id items)
      → (sent : Option (Unit {0}))
      → Keeps P (elim sent [
        | some u ↦ pure (Gw.TxAckStatus.ack_ok ∷ map (λ i. Gw.TxAckStatus.ignored) items)
        | none ↦
            relay_items env id items >>= λ statuses. pure (Gw.TxAckStatus.internal_error ∷ statuses)
      ])
  rest_of_items-Keeps id items rest none = Keeps-bind _ _ rest (λ statuses. Keeps-pure _)
  rest_of_items-Keeps id items rest (some u) = Keeps-pure _

  relay_items-Keeps : (id : ℕ) (items : List DownlinkFrameItem) → Keeps P (relay_items env id items)
  unfolding relay_items
  relay_items-Keeps id [] = Keeps-pure _
  relay_items-Keeps id (item ∷ items) =
      Keeps-bind_result _ _ (item_frame-Keeps id item) λ pl s built.
        Keeps-bind _ _
          (Keeps-attempt _ (mesh-Keeps env stable pl (item_frame-IsMeshFrame env id item s built)))
          λ sent. rest_of_items-Keeps id items (relay_items-Keeps id items) sent

  relay_downlink-Keeps : (pl : DownlinkFrame) → Keeps P (relay_downlink_lora_packet env pl)
  unfolding relay_downlink_lora_packet
  relay_downlink-Keeps pl = search (keeps_rules, relay_items-Keeps)

  proxy_or_relay-Keeps :
      (pl : DownlinkFrame) (t : Gw.DownlinkTxInfo) → Keeps P (proxy_or_relay env pl t)
  unfolding proxy_or_relay proxy_downlink_lora_packet
  proxy_or_relay-Keeps pl t =
      Keeps-split (is_relay_context t.context) (relay_downlink_lora_packet env pl)
        (proxy_downlink_lora_packet env pl) (relay_downlink-Keeps pl)
        (Keeps-bind _ _ (Keeps-lift _) (λ u. send_downlink-Keeps env stable pl))

  handle_items-Keeps :
      (pl : DownlinkFrame) (items : List DownlinkFrameItem) → Keeps P (handle_items env pl items)
  unfolding handle_items
  handle_items-Keeps pl [] = relay_downlink-Keeps pl
  handle_items-Keeps pl (item ∷ items) = search (keeps_rules, proxy_or_relay-Keeps)

  handle_downlink-Keeps : (pl : DownlinkFrame) → Keeps P (handle_downlink env pl)
  unfolding handle_downlink
  handle_downlink-Keeps pl = handle_items-Keeps pl pl.items

  send_mesh_command-Keeps : (pl : Gw.MeshCommand) → Keeps P (send_mesh_command env pl)
  unfolding send_mesh_command command_packet
  send_mesh_command-Keeps pl = Keeps-bind _ _ stable.now λ timestamp.
      Keeps-bind-lift _ _ λ relay_id decoded. Keeps-bind-lift _ _ λ p encrypted.
        Keeps-bind-lift _ _ λ q signed.
          transmit-Keeps env stable q
            (inl (ap (λ h. h.hop_count) (set_mic-mhdr _ _ p signed ∙ encrypt-mhdr _ _ _ encrypted)))

  gateway_id-Keeps : Keeps P (get_gateway_id env)
  unfolding get_gateway_id
  gateway_id-Keeps = Keeps-lift _

  pub handle_command-Keeps : (cmd : Gw.Command) → Keeps P (handle_command env cmd)
  unfolding handle_command
  handle_command-Keeps (Gw.Command.set_gateway_configuration v) =
      Keeps-bind _ _ (configuration-Keeps env stable v) (λ u. Keeps-pure _)
  handle_command-Keeps (Gw.Command.send_downlink_frame v) =
      search (keeps_rules, handle_downlink-Keeps)
  handle_command-Keeps Gw.Command.get_gateway_id =
      Keeps-bind _ _ (Keeps-attempt _ (gateway_id-Keeps)) (λ id. Keeps-pure _)
  handle_command-Keeps (Gw.Command.mesh v) =
      Keeps-bind _ _ (send_mesh_command-Keeps v) (λ u. Keeps-pure _)
  handle_command-Keeps Gw.Command.other_command = Keeps-lift _
