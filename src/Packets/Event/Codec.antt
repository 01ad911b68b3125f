-- ===== src/Packets/Event/Codec.antt =====
-- An event that fits its length byte is read back as it was written.
use chirpstack_gateway_mesh.Common.{
  ℕ, ◌%◌, ◌≤◌, ◌<◌, ◌≡◌, ◌≢◌, refl, ap, List, ◌∷◌, ◌++◌, length, All, arith, take, drop,
}
use chirpstack_gateway_mesh.Common.Bytes.{IsBytes}
use chirpstack_gateway_mesh.Common.Result.{ok, ◌>>=◌, map_ok}
use chirpstack_gateway_mesh.Packets.HeartbeatPayload
use chirpstack_gateway_mesh.Packets.RelayPath
use chirpstack_gateway_mesh.Packets.Tlv.{write_tlv, read_tlv-write_tlv, read_tlv-write_tlv_short}
use chirpstack_gateway_mesh.Packets.Items.{IsReadable}
use chirpstack_gateway_mesh.Packets.Event.Defs.{Event, encrypted, heartbeat, proprietary}
use chirpstack_gateway_mesh.Packets.Event.Encode.{encode}
use chirpstack_gateway_mesh.Packets.Event.Decode.{decode, decode_value}

-- The events that fit: at most 42 hops, each in range, and proprietary events of at most 255 bytes
-- under a type other than the heartbeat's 0.
abbrev pub IsEncodable : Event → Type 0
IsEncodable (encrypted v) = ⊥
IsEncodable (heartbeat h) = All RelayPath.InRange h.relay_path × (length h.relay_path ≤ 42)
IsEncodable (proprietary t v) = (t ≢ 0) × (t < 256) × IsBytes v × (length v < 256)

decode_tlv :
    (t : ℕ) (v rest : List ℕ) {e : Event}
    → length v < 256
    → decode_value (t, v) ≡ ok e
    → decode (write_tlv t v ++ rest) ≡ (ok e, rest)
unfolding decode
decode_tlv t v rest h f = rw (read_tlv-write_tlv_short t v rest h) (ap (λ r. (r, rest)) f)

pub IsEncodable-IsReadable : (e : Event) → IsEncodable e → IsReadable encode decode e
unfolding encode write_tlv decode_value
IsEncodable-IsReadable (encrypted v) h = absurd h
IsEncodable-IsReadable (heartbeat p) h =
    let (b, e, back, len, bytes) = HeartbeatPayload.from_slice-to_vec p h.0 in
    record {
      first = 0x00;
      others = length b % 256 ∷ b;
      encodes = rw e;
      bytes = (omega arith, (omega arith, bytes));
      decodes =
          λ rest. decode_tlv 0x00 b rest (omega (arith, len, h.1)) (ap (map_ok heartbeat) back);
    }
IsEncodable-IsReadable (proprietary t v) h = record {
  first = t;
  others = length v % 256 ∷ v;
  encodes = refl;
  bytes = (h.1, (omega arith, h.2));
  decodes = λ rest. decode_tlv t v rest h.3 (ground arith);
}

-- A longer proprietary event is cut: its length byte wraps, so the receiver takes the first
-- `length v % 256` bytes for the event and the others for the events that follow.
pub decode-encode_cut :
    (t : ℕ) (v rest : List ℕ)
    → t ≢ 0
    → (encode (proprietary t v) >>= λ b. ok (decode (b ++ rest)))
      ≡ ok (ok (proprietary t (take (length v % 256) v)), drop (length v % 256) v ++ rest)
unfolding encode decode decode_value
decode-encode_cut t v rest h = rw (read_tlv-write_tlv t v rest) (ground arith)
