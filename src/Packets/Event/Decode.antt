-- ===== src/Packets/Event/Decode.antt =====
-- `Event::decode`.
use chirpstack_gateway_mesh.Common.{
  ℕ, ◌≡◌, List, ◌∷◌, ◌==◌, if◌then◌else◌, arith, Bool-cases, inl, inr,
}
use chirpstack_gateway_mesh.Common.Result.{
  Result, ok, err, panicked, diverged, IsSettled, IsSettled->>=, map_ok,
}
use chirpstack_gateway_mesh.Common.Cursor.{
  Reader, ◌>>=◌, resume, resume-IsSettled, lift, Progresses,
}
use chirpstack_gateway_mesh.Packets.HeartbeatPayload
use chirpstack_gateway_mesh.Packets.Tlv.{read_tlv, read_tlv_progress}
use chirpstack_gateway_mesh.Packets.Event.Defs.{Event, encrypted, heartbeat, proprietary}

-- `match tag_length[0] { .. }`.
unfoldable pub decode_value : ℕ × List ℕ → Result Event
decode_value (tag, value) =
    if tag == 0x00
    then map_ok heartbeat (HeartbeatPayload.from_slice value)
    else ok (proprietary tag value)

unfoldable pub decode : Reader Event
unfolding decode_value
decode = do tag_value ← read_tlv; lift (decode_value tag_value)

decode_value-IsSettled : (tv : ℕ × List ℕ) → IsSettled (decode_value tv)
unfolding decode_value
decode_value-IsSettled (t, v) = elim (Bool-cases (t == 0x00)) [
  | inl beat ↦ rw beat (
      IsSettled->>= (HeartbeatPayload.from_slice v) (λ h. ok (heartbeat h))
        (HeartbeatPayload.from_slice-IsSettled v) (λ h. tt))
  | inr other ↦ rw other tt
]

-- A call reads at least a byte, and neither panics nor hangs.
pub decode-Progresses : Progresses decode
unfolding decode
decode-Progresses x b =
    let (le, settled) = read_tlv_progress x b in
    let (same, settled') =
      resume-IsSettled (read_tlv (x ∷ b)).0 (read_tlv (x ∷ b)).1 decode_value settled
        decode_value-IsSettled in
    (rw same le, settled')

-- What a decoded event can be: never the encrypted bytes.
abbrev pub IsPlain : Event → Type 0
IsPlain (encrypted v) = ⊥
IsPlain (heartbeat h) = Unit
IsPlain (proprietary t v) = Unit

pub decode-IsPlain : (b : List ℕ) (e : Event) → (decode b).0 ≡ ok e → IsPlain e
unfolding decode
decode-IsPlain b (encrypted v) h = no_encrypted (read_tlv b) h
  where
    no_value : (tv : ℕ × List ℕ) → decode_value tv ≡ ok (encrypted v) → ⊥
    no_value (t, w) e = unfold decode_value in ground arith

    no_encrypted :
        (s : Result (ℕ × List ℕ) × List ℕ)
        → (resume s (λ tv. lift (decode_value tv))).0 ≡ ok (encrypted v)
        → ⊥
    no_encrypted (ok tv, rest) e = no_value tv e
    no_encrypted (err x, rest) e = cc e
    no_encrypted (panicked, rest) e = cc e
    no_encrypted (diverged, rest) e = cc e
decode-IsPlain b (heartbeat h) e = tt
decode-IsPlain b (proprietary t v) e = tt
