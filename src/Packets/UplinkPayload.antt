-- ===== src/Packets/UplinkPayload.antt =====
-- `UplinkPayload`: metadata, the relay's identifier and the end device's frame.
use chirpstack_gateway_mesh.Common.{
  ℕ, ◌<◌, ◌≡◌, List, ◌++◌, ltb, arith, length, take, drop, length-take, length-drop, Bool-cases,
  inl, inr,
}
use chirpstack_gateway_mesh.Common.Bytes.{
  Bytes4, Bytes5, to_list, to_list5, copy4, copy5, copy4-IsSettled, copy5-IsSettled,
}
use chirpstack_gateway_mesh.Common.Result.{
  Result, ok, ◌>>=◌, ◌>>◌, reject_if, IsSettled, IsSettled->>=, IsSettled-map_ok, at_least_9_bytes,
}
use chirpstack_gateway_mesh.Packets.UplinkMetadata
use chirpstack_gateway_mesh.Packets.UplinkMetadata.{UplinkMetadata}

pub record UplinkPayload : Type 0 where
  pub metadata : UplinkMetadata
  pub relay_id : Bytes4
  pub phy_payload : List ℕ

unfoldable pub from_slice : List ℕ → Result UplinkPayload
from_slice b = do
  reject_if (ltb (length b) 9) at_least_9_bytes
  md ← copy5 (take 5 b)
  gw_id ← copy4 (take 4 (drop 5 b))
  ok (record { metadata = UplinkMetadata.from_bytes md; relay_id = gw_id; phy_payload = drop 9 b })

unfoldable pub to_vec : UplinkPayload → Result (List ℕ)
to_vec p = do
  b ← UplinkMetadata.to_bytes p.metadata
  ok (to_list5 b ++ to_list p.relay_id ++ p.phy_payload)

-- What `to_vec` writes when the metadata fits.
to_vec_of_bytes :
    (p : UplinkPayload) (a : Bytes5)
    → UplinkMetadata.to_bytes p.metadata ≡ ok a
    → to_vec p ≡ ok (to_list5 a ++ to_list p.relay_id ++ p.phy_payload)
unfolding to_vec
to_vec_of_bytes p a e = ground arith

-- A payload with metadata in range is encoded, and the bytes decode to it.
pub from_slice-to_vec :
    (p : UplinkPayload)
    → UplinkMetadata.InRange p.metadata
    → p.metadata.channel < 256
    → (b : List ℕ) × (to_vec p ≡ ok b) × (from_slice b ≡ ok p)
unfolding from_slice
from_slice-to_vec p r c =
    let (a, e, bytes, back) = UplinkMetadata.from_bytes-to_bytes p.metadata r c in
    (to_list5 a ++ to_list p.relay_id ++ p.phy_payload, to_vec_of_bytes p a e, ground arith)

-- A slice of any length is read or refused.
pub from_slice-IsSettled : (b : List ℕ) → IsSettled (from_slice b)
unfolding from_slice
from_slice-IsSettled b = elim (Bool-cases (ltb (length b) 9)) [
  | inl short ↦ rw short tt
  | inr long ↦ rw long (
      IsSettled->>= (copy5 (take 5 b)) _
        (copy5-IsSettled (take 5 b) (ground (arith, length-take 5 b)))
        (λ md. IsSettled-map_ok _ (copy4 (take 4 (drop 5 b))) (
          copy4-IsSettled (take 4 (drop 5 b))
            (ground (arith, length-take 4 (drop 5 b), length-drop 5 b)))))
]
