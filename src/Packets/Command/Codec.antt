-- ===== src/Packets/Command/Codec.antt =====
-- A command that fits its length byte is read back as it was written.
use chirpstack_gateway_mesh.Common.{ℕ, ◌%◌, ◌<◌, ◌≡◌, refl, List, ◌∷◌, length, arith}
use chirpstack_gateway_mesh.Common.Bytes.{IsBytes}
use chirpstack_gateway_mesh.Common.Result.{Result, ok, err, panicked, diverged}
use chirpstack_gateway_mesh.Common.Cursor.{resume, resume-IsSettled, lift, Progresses}
use chirpstack_gateway_mesh.Packets.Tlv.{
  read_tlv, read_tlv_progress, write_tlv, read_tlv-write_tlv_short,
}
use chirpstack_gateway_mesh.Packets.Items.{IsReadable}
use chirpstack_gateway_mesh.Packets.Command.Defs.{
  Command, encrypted, proprietary, encode, decode, decode_value,
}

-- A call reads at least a byte, and neither panics nor hangs.
pub decode-Progresses : Progresses decode
unfolding decode
decode-Progresses x b =
    let (le, settled) = read_tlv_progress x b in
    let (same, settled') =
      resume-IsSettled (read_tlv (x ∷ b)).0 (read_tlv (x ∷ b)).1 decode_value settled (λ tv. tt) in
    (rw same le, settled')

-- What a decoded command can be: never the encrypted bytes.
abbrev pub IsPlain : Command → Type 0
IsPlain (encrypted v) = ⊥
IsPlain (proprietary t v) = Unit

pub decode-IsPlain : (b : List ℕ) (e : Command) → (decode b).0 ≡ ok e → IsPlain e
unfolding decode
decode-IsPlain b (encrypted v) h = no_encrypted (read_tlv b) h
  where
    no_encrypted :
        (s : Result (ℕ × List ℕ) × List ℕ)
        → (resume s (λ tv. lift (decode_value tv))).0 ≡ ok (encrypted v)
        → ⊥
    no_encrypted (ok (t, w), rest) e = cc e
    no_encrypted (err x, rest) e = cc e
    no_encrypted (panicked, rest) e = cc e
    no_encrypted (diverged, rest) e = cc e
decode-IsPlain b (proprietary t v) e = tt

-- The commands that fit: at most 255 bytes.
abbrev pub IsEncodable : Command → Type 0
IsEncodable (encrypted v) = ⊥
IsEncodable (proprietary t v) = (t < 256) × IsBytes v × (length v < 256)

pub IsEncodable-IsReadable : (e : Command) → IsEncodable e → IsReadable encode decode e
unfolding encode decode write_tlv
IsEncodable-IsReadable (encrypted v) h = absurd h
IsEncodable-IsReadable (proprietary t v) h = record {
  first = t;
  others = length v % 256 ∷ v;
  encodes = refl;
  bytes = (h.0, (omega arith, h.1));
  decodes = λ rest. rw (read_tlv-write_tlv_short t v rest h.2) refl;
}
