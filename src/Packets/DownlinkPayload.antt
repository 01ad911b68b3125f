-- ===== src/Packets/DownlinkPayload.antt =====
-- `DownlinkPayload`: metadata, the addressed relay's identifier and the end device's frame.
use chirpstack_gateway_mesh.Common.{
  ℕ, ◌≡◌, List, ◌++◌, ltb, arith, length, take, drop, length-take, length-drop, Bool-cases, inl,
  inr,
}
use chirpstack_gateway_mesh.Common.Bytes.{
  Bytes4, Bytes6, to_list, to_list6, copy4, copy6, copy4-IsSettled, copy6-IsSettled,
}
use chirpstack_gateway_mesh.Common.Result.{
  Result, ok, ◌>>=◌, ◌>>◌, reject_if, IsSettled, IsSettled->>=, IsSettled-map_ok, at_least_10_bytes,
}
use chirpstack_gateway_mesh.Packets.DownlinkMetadata
use chirpstack_gateway_mesh.Packets.DownlinkMetadata.{DownlinkMetadata}

pub record DownlinkPayload : Type 0 where
  pub metadata : DownlinkMetadata
  pub relay_id : Bytes4
  pub phy_payload : List ℕ

unfoldable pub from_slice : List ℕ → Result DownlinkPayload
from_slice b = do
  reject_if (ltb (length b) 10) at_least_10_bytes
  md ← copy6 (take 6 b)
  gw_id ← copy4 (take 4 (drop 6 b))
  metadata ← DownlinkMetadata.from_bytes md
  ok (record { metadata = metadata; relay_id = gw_id; phy_payload = drop 10 b })

unfoldable pub to_vec : DownlinkPayload → Result (List ℕ)
to_vec p = do
  b ← DownlinkMetadata.to_bytes p.metadata
  ok (to_list6 b ++ to_list p.relay_id ++ p.phy_payload)

to_vec_of_bytes :
    (p : DownlinkPayload) (a : Bytes6)
    → DownlinkMetadata.to_bytes p.metadata ≡ ok a
    → to_vec p ≡ ok (to_list6 a ++ to_list p.relay_id ++ p.phy_payload)
unfolding to_vec
to_vec_of_bytes p a e = ground arith

-- A payload with metadata in range is encoded, and the bytes decode to it.
pub from_slice-to_vec :
    (p : DownlinkPayload)
    → DownlinkMetadata.InRange p.metadata
    → (b : List ℕ) × (to_vec p ≡ ok b) × (from_slice b ≡ ok p)
unfolding from_slice
from_slice-to_vec p r =
    let (a, e, bytes, back) = DownlinkMetadata.from_bytes-to_bytes p.metadata r in
    (to_list6 a ++ to_list p.relay_id ++ p.phy_payload, to_vec_of_bytes p a e, ground arith)

-- A slice of any length is read or refused.
pub from_slice-IsSettled : (b : List ℕ) → IsSettled (from_slice b)
unfolding from_slice
from_slice-IsSettled b = elim (Bool-cases (ltb (length b) 10)) [
  | inl short ↦ rw short tt
  | inr long ↦ rw long (
      IsSettled->>= (copy6 (take 6 b)) _
        (copy6-IsSettled (take 6 b) (ground (arith, length-take 6 b)))
        (λ md.
          IsSettled->>= (copy4 (take 4 (drop 6 b))) _
            (copy4-IsSettled (take 4 (drop 6 b))
              (ground (arith, length-take 4 (drop 6 b), length-drop 6 b)))
            (λ id.
              IsSettled-map_ok _ (DownlinkMetadata.from_bytes md)
                (DownlinkMetadata.from_bytes-IsSettled md))))
]
