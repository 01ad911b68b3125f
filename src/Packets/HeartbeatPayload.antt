-- ===== src/Packets/HeartbeatPayload.antt =====
-- `HeartbeatPayload`: the hops of a heartbeat, six bytes each.
use chirpstack_gateway_mesh.Common.{
  ℕ, ◌*◌, ◌%◌, ◌≡◌, refl, List, [], ◌∷◌, ◌++◌, ◌==◌, not, arith, Bool-cases, ==_iff, inl, inr,
  length, All,
}
use chirpstack_gateway_mesh.Common.Bytes.{bytes6, to_list6, IsBytes}
use chirpstack_gateway_mesh.Common.Result.{
  Result, ok, panicked, IsSettled, ◌>>=◌, ◌>>◌, reject_if, invalid_relay_path,
}
use chirpstack_gateway_mesh.Packets.RelayPath
use chirpstack_gateway_mesh.Packets.RelayPath.{RelayPath}

pub record HeartbeatPayload : Type 0 where
  pub relay_path : List RelayPath

-- The `map` over `b.chunks(6)`; the copy of a chunk of another length would panic.
decode_chunks : List ℕ → Result (List RelayPath)
decode_chunks [] = ok []
decode_chunks (x0 ∷ x1 ∷ x2 ∷ x3 ∷ x4 ∷ x5 ∷ b) = do
  rest ← decode_chunks b
  ok (RelayPath.from_bytes (bytes6 x0 x1 x2 x3 x4 x5) ∷ rest)
decode_chunks _ = panicked

unfoldable pub from_slice : List ℕ → Result HeartbeatPayload
unfolding decode_chunks
from_slice b = do
  reject_if (not (length b % 6 == 0)) invalid_relay_path
  relay_path ← decode_chunks b
  ok (record { relay_path = relay_path })

-- The loop of `to_vec`.
encode_hops : List RelayPath → Result (List ℕ)
encode_hops [] = ok []
encode_hops (p ∷ ps) = do b ← RelayPath.to_bytes p; rest ← encode_hops ps; ok (to_list6 b ++ rest)

unfoldable pub to_vec : HeartbeatPayload → Result (List ℕ)
unfolding encode_hops
to_vec p = encode_hops p.relay_path

encode_hops_total :
    (ps : List RelayPath)
    → All RelayPath.InRange ps
    → (b : List ℕ) × (encode_hops ps ≡ ok b)
      × (decode_chunks b ≡ ok ps)
      × (length b ≡ length ps * 6)
      × IsBytes b
unfolding encode_hops decode_chunks
encode_hops_total [] r = ([], refl, refl, refl, tt)
encode_hops_total (p ∷ ps) r =
    let (a, e, bytes, back) = RelayPath.from_bytes-to_bytes p r.0 in
    let (b, f, back', len, bytes') = encode_hops_total ps r.1 in
    (to_list6 a ++ b, ground arith, ground arith, omega arith, ground arith)

-- A heartbeat with hops in range is encoded, at six bytes a hop, and the bytes decode to it.
pub from_slice-to_vec :
    (p : HeartbeatPayload)
    → All RelayPath.InRange p.relay_path
    → (b : List ℕ) × (to_vec p ≡ ok b)
      × (from_slice b ≡ ok p)
      × (length b ≡ length p.relay_path * 6)
      × IsBytes b
unfolding from_slice to_vec
from_slice-to_vec p r =
    let (b, e, back, len, bytes) = encode_hops_total p.relay_path r in
    (b, e, ground arith, len, bytes)

-- Whole chunks never panic.
decode_chunks_total :
    (b : List ℕ) → length b % 6 ≡ 0 → (ps : List RelayPath) × (decode_chunks b ≡ ok ps)
unfolding decode_chunks
decode_chunks_total [] h = ([], refl)
decode_chunks_total (x0 ∷ x1 ∷ x2 ∷ x3 ∷ x4 ∷ x5 ∷ b) h =
    let (ps, e) = decode_chunks_total b (omega arith) in
    (RelayPath.from_bytes (bytes6 x0 x1 x2 x3 x4 x5) ∷ ps, ground arith)
decode_chunks_total _ h = absurd (omega arith)

-- No slice makes the decoder panic.
pub from_slice-IsSettled : (b : List ℕ) → IsSettled (from_slice b)
unfolding from_slice
from_slice-IsSettled b = elim (Bool-cases (length b % 6 == 0)) [
  | inl whole ↦
      let (ps, e) = decode_chunks_total b ((==_iff (length b % 6) 0).0 whole) in rw (whole, e) tt
  | inr partial ↦ rw partial tt
]

encode_hops-IsSettled : (ps : List RelayPath) → IsSettled (encode_hops ps)
unfolding encode_hops RelayPath.to_bytes
encode_hops-IsSettled [] = tt
encode_hops-IsSettled (p ∷ ps) = ground (arith, encode_hops-IsSettled ps)

-- Encoding returns, whatever the path.
pub to_vec-IsSettled : (p : HeartbeatPayload) → IsSettled (to_vec p)
unfolding to_vec
to_vec-IsSettled p = encode_hops-IsSettled p.relay_path
