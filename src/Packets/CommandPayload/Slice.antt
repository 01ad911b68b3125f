-- ===== src/Packets/CommandPayload/Slice.antt =====
-- The type `CommandPayload`, and the reads of `from_slice`.
use chirpstack_gateway_mesh.Common.{ℕ, List, [], ◌∷◌, ◌++◌, ◌≡◌, refl}
use chirpstack_gateway_mesh.Common.Bytes.{Bytes4, to_list, copy4, u32_from_be_bytes}
use chirpstack_gateway_mesh.Common.Result.{ok}
use chirpstack_gateway_mesh.Common.Cursor.{
  Reader, ◌>>=◌, lift, read_exact, read_to_end, read_exact-append,
}
use chirpstack_gateway_mesh.Common.Time.{SystemTime, from_unix}
use chirpstack_gateway_mesh.Packets.Command.{Command}

pub record CommandPayload : Type 0 where
  pub timestamp : SystemTime
  pub relay_id : Bytes4
  pub commands : List Command

-- What is left of a slice is one encrypted command, unless nothing is left.
unfoldable pub pending : List ℕ → List Command
pending [] = []
pending (x ∷ b) = Command.encrypted (x ∷ b) ∷ []

-- The reads of `from_slice` from its cursor.
unfoldable pub read_payload : Reader CommandPayload
unfolding pending
read_payload = do
  ts_b ← read_exact 4
  ts ← lift (copy4 ts_b)
  id_b ← read_exact 4
  relay_id ← lift (copy4 id_b)
  b ← read_to_end
  lift (
      ok (record {
        timestamp = from_unix (u32_from_be_bytes ts);
        relay_id = relay_id;
        commands = pending b;
      }))

-- Eight bytes are the timestamp and the relay, and the rest is pending.
pub read_payload_lem :
    (ts relay_id : Bytes4) (b : List ℕ)
    → read_payload (to_list ts ++ (to_list relay_id ++ b)) ≡ (
      ok (record {
        timestamp = from_unix (u32_from_be_bytes ts);
        relay_id = relay_id;
        commands = pending b;
      }),
      [],
    )
unfolding read_payload read_to_end
read_payload_lem ts relay_id b =
    let e1 : read_exact 4 (to_list ts ++ (to_list relay_id ++ b))
        ≡ (ok (to_list ts), to_list relay_id ++ b) =
      read_exact-append (to_list ts) (to_list relay_id ++ b) in
    let e2 : read_exact 4 (to_list relay_id ++ b) ≡ (ok (to_list relay_id), b) =
      read_exact-append (to_list relay_id) b in
    rw e1 (rw e2 refl)
