-- ===== src/Mesh/Statuses.antt =====
-- The statuses of a relayed downlink: its items are tried one after the other, until the mesh
-- Concentratord acknowledges one.
use chirpstack_gateway_mesh.Common.{
  ℕ, ◌<◌, ◌≡◌, refl, sym, ◌∙◌, ap, List, [], ◌∷◌, ◌++◌, map, Option, some, none, length, All,
}
use mathlib.Core.Path.{subst}
use chirpstack_gateway_mesh.Common.Result.{
  Result, ok, err, panicked, diverged, ok_or, IsSettled, tx_info_is_none,
}
use chirpstack_gateway_mesh.Packets.MeshPacket
use chirpstack_gateway_mesh.Packets.MeshPacket.{MeshPacket}
use chirpstack_gateway_mesh.Helpers.Ack.{format_downlink, tx_ack_to_err}
use chirpstack_gateway_mesh.Helpers.Settled.{tx_ack_to_err-IsSettled}
use chirpstack_gateway_mesh.Gw.{
  DownlinkFrame, DownlinkFrameItem, DownlinkTxInfo, DownlinkTxAck, TxAckStatus,
}
use chirpstack_gateway_mesh.Runtime.{
  State, Env, M, Output, mesh_frame, ◌>>=◌, lift, pure, attempt, caught, resume,
}
use chirpstack_gateway_mesh.Runtime.Returns
use chirpstack_gateway_mesh.Backend.{mesh, ask_mesh, emit}
use chirpstack_gateway_mesh.Mesh.Send.{mesh_tx_info}
use chirpstack_gateway_mesh.Mesh.Downlink.{
  packet_of, item_frame, relay_items, relay_downlink_lora_packet,
}
use chirpstack_gateway_mesh.Mesh.Forward.{framed, mesh_frame_with}

module _ {F32 : Type 0} (env : Env F32) (downlink_id : ℕ) where
  -- An item that is put into a mesh packet, and the bytes of the packet.
  pub record Packed (item : DownlinkFrameItem) : Type 0 where
    pub tx_info : DownlinkTxInfo
    pub has : item.tx_info ≡ some tx_info
    pub packet : MeshPacket
    pub packs : (s : State F32) → packet_of env item tx_info s ≡ (ok packet, s)
    pub wire : List ℕ
    pub writes : MeshPacket.to_vec packet ≡ ok wire

  -- The Concentratord acknowledges the frame, after what was sent before.
  abbrev pub Acknowledges : List (Output F32) → DownlinkFrame → Type 0
  Acknowledges sent pl =
      (ack : DownlinkTxAck) × (env.mesh_reply sent pl ≡ ok ack) × (tx_ack_to_err ack ≡ ok tt)

  abbrev pub frame_of : {item : DownlinkFrameItem} → Packed item → ℕ → DownlinkFrame
  frame_of p frequency = mesh_frame_with env downlink_id p.wire frequency

  -- The items, what was sent before, the statuses, and what was sent afterwards: one frame for
  -- each item up to the first that is acknowledged, and none for those that are ignored.
  pub data Tries
      : List DownlinkFrameItem
        → List (Output F32)
        → List TxAckStatus
        → List (Output F32)
        → Type 0 where
    none_left : {sent : List (Output F32)} → Tries [] sent [] sent
    sends :
        {item : DownlinkFrameItem} {items : List DownlinkFrameItem} {sent : List (Output F32)}
        (p : Packed item) (frequency : ℕ)
        → Acknowledges sent (frame_of p frequency)
        → Tries
            (item ∷ items)
            sent
            (TxAckStatus.ack_ok ∷ map (λ i. TxAckStatus.ignored) items)
            (sent ++ mesh_frame (frame_of p frequency) ∷ [])
    fails :
        {item : DownlinkFrameItem} {items : List DownlinkFrameItem} {sent : List (Output F32)}
        {statuses : List TxAckStatus} {sent' : List (Output F32)} (p : Packed item) (frequency : ℕ)
        → ¬ Acknowledges sent (frame_of p frequency)
        → Tries items (sent ++ mesh_frame (frame_of p frequency) ∷ []) statuses sent'
        → Tries (item ∷ items) sent (TxAckStatus.internal_error ∷ statuses) sent'

  -- What becomes of a frame.
  data Answered (sent : List (Output F32)) (pl : DownlinkFrame) : Option (Unit {0}) → Type 0 where
    taken : Acknowledges sent pl → Answered sent pl (some tt)
    refused : ¬ Acknowledges sent pl → Answered sent pl none

  answer_to :
      (sent : List (Output F32)) (pl : DownlinkFrame) (t : State F32) (ack : DownlinkTxAck)
      (r : Result (Unit {0}))
      → env.mesh_reply sent pl ≡ ok ack
      → tx_ack_to_err ack ≡ r
      → IsSettled r
      → (o : Option (Unit {0})) × (caught (r, t) ≡ (ok o, t)) × Answered sent pl o
  answer_to sent pl t ack (ok u) e q h = (some tt, refl, taken (ack, e, q))
  answer_to sent pl t ack (err x) e q h = (none, refl, refused (λ (ack', e', q'). cc))
  answer_to sent pl t ack panicked e q h = absurd h
  answer_to sent pl t ack diverged e q h = absurd h

  answer_of :
      (sent : List (Output F32)) (pl : DownlinkFrame) (t : State F32) (reply : Result DownlinkTxAck)
      → env.mesh_reply sent pl ≡ reply
      → IsSettled reply
      → (o : Option (Unit {0})) × (caught (resume (reply, t) (λ ack s. (tx_ack_to_err ack, s)))
          ≡ (ok o, t))
        × Answered sent pl o
  answer_of sent pl t (ok ack) e h =
      answer_to sent pl t ack (tx_ack_to_err ack) e refl (tx_ack_to_err-IsSettled ack)
  answer_of sent pl t (err x) e h = (none, refl, refused (λ (ack, e', q). cc))
  answer_of sent pl t panicked e h = absurd h
  answer_of sent pl t diverged e h = absurd h

  tried :
      (pl : DownlinkFrame) (s : State F32)
      → IsSettled (env.mesh_reply s.sent pl)
      → format_downlink pl ≡ ok tt
      → (o : Option (Unit {0})) × (attempt (mesh env pl) s
          ≡ (ok o, record s { sent = s.sent ++ mesh_frame pl ∷ [] }))
        × Answered s.sent pl o
  unfolding mesh ask_mesh emit attempt lift pure ◌>>=◌
  tried pl s h formats = rw formats (
      answer_of s.sent pl (record s { sent = s.sent ++ mesh_frame pl ∷ [] })
        (env.mesh_reply s.sent pl) refl h)

  module _
      (settled : (sent : List (Output F32)) (pl : DownlinkFrame)
        → IsSettled (env.mesh_reply sent pl))
      (some_frequency : 0 < length env.conf.mesh.frequencies) where
    abbrev pub Tried :
        List DownlinkFrameItem → List (Output F32) → Result (List TxAckStatus) × State F32 → Type 0
    Tried items sent r =
        (statuses : List TxAckStatus) × (r.0 ≡ ok statuses) × Tries items sent statuses r.1.sent

    goes_on :
        (item : DownlinkFrameItem) (items : List DownlinkFrameItem) (sent : List (Output F32))
        (p : Packed item) (frequency : ℕ) (t : State F32) (o : Option (Unit {0}))
        → t.sent ≡ sent ++ mesh_frame (frame_of p frequency) ∷ []
        → Answered sent (frame_of p frequency) o
        → Tried items t.sent (relay_items env downlink_id items t)
        → Tried (item ∷ items) sent (
            (elim o as (λ x. M (State F32) (List TxAckStatus)) [
              | some u ↦ pure (TxAckStatus.ack_ok ∷ map (λ i. TxAckStatus.ignored) items)
              | none ↦ relay_items env downlink_id items >>= λ statuses.
                  pure (TxAckStatus.internal_error ∷ statuses)
            ])
              t)
    unfolding pure
    goes_on item items sent p frequency t (some u) same (taken a) rest = (
      TxAckStatus.ack_ok ∷ map (λ i. TxAckStatus.ignored) items,
      refl,
      subst (Tries (item ∷ items) sent (TxAckStatus.ack_ok ∷ map (λ i. TxAckStatus.ignored) items))
          (sym same) (sends p frequency a),
    )
    goes_on item items sent p frequency t none same (refused a) (statuses, returns, tries) =
        let run =
          Returns.>>=-ok (relay_items env downlink_id items)
            (λ statuses. pure (TxAckStatus.internal_error ∷ statuses)) t returns in
        (
          TxAckStatus.internal_error ∷ statuses,
          ap (λ x. x.0) run,
          subst (Tries (item ∷ items) sent (TxAckStatus.internal_error ∷ statuses))
              (sym (ap (λ x. x.1.sent) run))
              (fails p frequency a (
                subst (λ l. Tries items l statuses (relay_items env downlink_id items t).1.sent)
                  same tries)),
        )

    relay_items-Tries :
        (items : List DownlinkFrameItem) (s : State F32)
        → All Packed items
        → Tried items s.sent (relay_items env downlink_id items s)
    unfolding relay_items item_frame format_downlink mesh_tx_info pure
    relay_items-Tries [] s h = ([], refl, none_left)
    relay_items-Tries (item ∷ items) s h =
        let p = h.0 in
        let (t, frequency, same, built) =
          framed env downlink_id p.packet p.wire s p.writes some_frequency in
        let pl = frame_of p frequency in
        let built' : item_frame env downlink_id item s ≡ (ok pl, t) =
          Returns.>>=-lift-ok _ _ s (ap (λ o. ok_or o tx_info_is_none) p.has)
          ∙ Returns.>>=-step (packet_of env item p.tx_info) _ s (p.packs s)
          ∙ built in
        let (o, run, answered) = tried pl t (settled t.sent pl) refl in
        let t' : State F32 = record t { sent = t.sent ++ mesh_frame pl ∷ [] } in
        let whole =
          Returns.>>=-step (item_frame env downlink_id item) _ s built'
          ∙ Returns.>>=-step (attempt (mesh env pl)) _ t run in
        subst (Tried (item ∷ items) s.sent) (sym whole) (
          goes_on item items s.sent p frequency t' o (ap (λ sent. sent ++ mesh_frame pl ∷ []) same)
            (subst (λ l. Answered l pl o) same answered) (relay_items-Tries items t' h.1))

module _ {F32 : Type 0} (env : Env F32) where
  -- A downlink of items that can all be put into mesh packets, with a configured frequency and a Concentratord
  -- whose replies neither panic nor hang, returns a status for each item: the items are sent in their
  -- order, one frame each, until the first whose frame is acknowledged. Those before it have the status of an
  -- internal error, and those after it are ignored and not sent.
  pub relay_downlink_lora_packet-Tries :
      (pl : DownlinkFrame) (s : State F32)
      → ((sent : List (Output F32)) (frame : DownlinkFrame) → IsSettled (env.mesh_reply sent frame))
      → 0 < length env.conf.mesh.frequencies
      → All (Packed env pl.downlink_id) pl.items
      → (statuses : List TxAckStatus) × ((relay_downlink_lora_packet env pl s).0
          ≡ ok (record {
            gateway_id = pl.gateway_id;
            downlink_id = pl.downlink_id;
            items = statuses;
          }))
        × Tries env pl.downlink_id pl.items s.sent statuses
            (relay_downlink_lora_packet env pl s).1.sent
  unfolding relay_downlink_lora_packet pure
  relay_downlink_lora_packet-Tries pl s settled some_frequency packed =
      let (statuses, returns, tries) =
        relay_items-Tries env pl.downlink_id settled some_frequency pl.items s packed in
      let run =
        Returns.>>=-ok (relay_items env pl.downlink_id pl.items)
          (λ items.
            pure
              (record { gateway_id = pl.gateway_id; downlink_id = pl.downlink_id; items = items }))
          s returns in
      (
        statuses,
        ap (λ x. x.0) run,
        subst (Tries env pl.downlink_id pl.items s.sent statuses) (sym (ap (λ x. x.1.sent) run))
            tries,
      )
