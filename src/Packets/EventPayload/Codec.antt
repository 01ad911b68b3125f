-- ===== src/Packets/EventPayload/Codec.antt =====
-- An event payload, encrypted, written, read and decrypted.
use chirpstack_gateway_mesh.Common.{
  ℕ, suc, ◌%◌, ◌^◌, ◌<◌, ◌≡◌, refl, sym, ap, ◌∙◌, false, List, [], ◌∷◌, ◌++◌, length, All, All-mono,
  arith, is_empty, append-nil,
}
use chirpstack_gateway_mesh.Common.Bytes.{
  Bytes4, to_list, u32_to_be_bytes, u32_from_be_bytes-u32_to_be_bytes,
}
use chirpstack_gateway_mesh.Common.Result.{ok}
use chirpstack_gateway_mesh.Common.Time.{SystemTime, from_unix, unix_secs}
use chirpstack_gateway_mesh.Aes128.{Aes128Key, BlockCipher, IsBlockCipher}
use chirpstack_gateway_mesh.Packets.Crypt.{encrypt_events_commands, encrypt_events_commands_twice}
use chirpstack_gateway_mesh.Packets.Items.{encode_items, decode_loop-encode_items, IsReadable}
use chirpstack_gateway_mesh.Packets.Event
use chirpstack_gateway_mesh.Packets.Event.{Event}
use chirpstack_gateway_mesh.Packets.EventPayload.Slice.{EventPayload, pending, read_payload_lem}
use chirpstack_gateway_mesh.Packets.EventPayload.Defs.{
  from_slice, to_vec, encrypt, decrypt, decrypt_items, decode_all,
}

from_slice_lem :
    (p : EventPayload) (secs : ℕ) (b : List ℕ)
    → from_slice (to_list (u32_to_be_bytes (secs % 2 ^ 32)) ++ (to_list p.relay_id ++ b))
      ≡ ok (record p { timestamp = from_unix (secs % 2 ^ 32); events = pending b })
unfolding from_slice
from_slice_lem p secs b =
    ap (λ r. r.0) (read_payload_lem (u32_to_be_bytes (secs % 2 ^ 32)) p.relay_id b)
    ∙ ap (λ n. ok (record p { timestamp = from_unix n; events = pending b }))
        (u32_from_be_bytes-u32_to_be_bytes (secs % 2 ^ 32) (omega arith))

to_vec_lem :
    (p : EventPayload) (secs : ℕ) (b : List ℕ)
    → unix_secs p.timestamp ≡ ok secs
    → encode_items Event.encode p.events ≡ ok b
    → to_vec p ≡ ok (to_list (u32_to_be_bytes (secs % 2 ^ 32)) ++ (to_list p.relay_id ++ b))
unfolding to_vec
to_vec_lem p secs b e f = rw (e, f) refl

-- An encrypted payload on the wire.
encrypted_items : (c : List ℕ) → encode_items Event.encode (Event.encrypted c ∷ []) ≡ ok c
unfolding encode_items Event.encode
encrypted_items c = ap ok (append-nil c)

pending_items : (c : List ℕ) → encode_items Event.encode (pending c) ≡ ok c
unfolding pending
pending_items [] = unfold encode_items in refl
pending_items (x ∷ c) = encrypted_items (x ∷ c)

-- The time in whole seconds, as 32 bits hold it.
abbrev pub wire_time : ℕ → SystemTime
wire_time secs = from_unix (secs % 2 ^ 32)

-- What the receiver has of the sender's payload.
abbrev pub received : EventPayload → ℕ → EventPayload
received p secs = record p { timestamp = wire_time secs }

-- A payload is written as `w`, which is read as a payload that is written as `w` too, and that
-- decrypts to the sender's.
pub record IsDelivered (aes : BlockCipher) (key : Aes128Key) (p q : EventPayload) (secs : ℕ)
    : Type 0 where
  pub wire : List ℕ
  pub writes : to_vec q ≡ ok wire
  pub pending : EventPayload
  pub reads : from_slice wire ≡ ok pending
  pub rewrites : to_vec pending ≡ ok wire
  pub decrypts : decrypt aes key pending ≡ ok (received p secs)

module _ (aes : BlockCipher) (cipher : IsBlockCipher aes) (key : Aes128Key)
    (sixteen : length key.bytes ≡ 16) where
  decrypt_pending :
      (t : SystemTime) (id : Bytes4) (c b : List ℕ)
      → 0 < length c
      → encrypt_events_commands aes key false id t c ≡ ok b
      → decrypt_items aes key t id (pending c) ≡ decode_all b
  unfolding decrypt_items pending
  decrypt_pending t id [] b pos e = absurd (omega arith)
  decrypt_pending t id (x ∷ c) b pos e = rw e refl

  delivered :
      (p q : EventPayload) (secs : ℕ) (c : List ℕ)
      → unix_secs p.timestamp ≡ ok secs
      → q.timestamp ≡ p.timestamp
      → q.relay_id ≡ p.relay_id
      → encode_items Event.encode q.events ≡ ok c
      → decrypt_items aes key (wire_time secs) p.relay_id (pending c) ≡ ok p.events
      → IsDelivered aes key p q secs
  unfolding decrypt
  delivered p q secs c e same_time same_relay enc dec =
      let p' : EventPayload = record p { timestamp = wire_time secs; events = pending c } in
      record {
        wire = to_list (u32_to_be_bytes (secs % 2 ^ 32)) ++ (to_list p.relay_id ++ c);
        writes =
            to_vec_lem q secs c (ap unix_secs same_time ∙ e) enc
            ∙ ap (λ id. ok (to_list (u32_to_be_bytes (secs % 2 ^ 32)) ++ (to_list id ++ c)))
                same_relay;
        pending = p';
        reads = from_slice_lem p secs c;
        rewrites =
            to_vec_lem p' (secs % 2 ^ 32) c refl (pending_items c)
            ∙ ap (λ n. ok (to_list (u32_to_be_bytes n) ++ (to_list p.relay_id ++ c))) (omega arith);
        decrypts = rw dec refl;
      }

  delivers :
      (p : EventPayload) (secs : ℕ) (es : List Event)
      → p.events ≡ es
      → unix_secs p.timestamp ≡ ok secs
      → All Event.IsEncodable p.events
      → (q : EventPayload) × (encrypt aes key p ≡ ok q) × IsDelivered aes key p q secs
  unfolding encrypt decode_all
  delivers p secs [] none_left e h = (
    p,
    rw none_left refl,
    delivered p p secs [] e refl refl (rw none_left (unfold encode_items in refl))
        (unfold decrypt_items pending in ap ok (sym none_left)),
  )
  delivers p secs (x ∷ es) some_left e h =
      let (b, enc, bytes, len, back) = decode_loop-encode_items Event.encode Event.decode p.events (
        All-mono Event.IsEncodable (IsReadable Event.encode Event.decode)
          Event.IsEncodable-IsReadable p.events h) in
      let (c, e1, e2, c_bytes, c_len) =
        encrypt_events_commands_twice aes cipher key sixteen false p.relay_id p.timestamp
          (wire_time secs) secs (secs % 2 ^ 32) b e refl (omega arith) bytes in
      let q = record p { events = Event.encrypted c ∷ [] } in
      (
        q,
        rw (ap is_empty some_left) (rw (enc, e1) refl),
        delivered p q secs c e refl refl (encrypted_items c) (
            decrypt_pending (wire_time secs) p.relay_id c b
              (omega (arith, ap length some_left, len, c_len)) e2
            ∙ back (suc (length b)) (omega arith)),
      )

  -- A payload of encodable events, sent from the epoch on, is encrypted and written, and the
  -- receiver with the same key reads it, writes it as it came, and decrypts the same relay and
  -- events, with the time in whole seconds.
  pub decrypt-encrypt :
      (p : EventPayload) (secs : ℕ)
      → unix_secs p.timestamp ≡ ok secs
      → All Event.IsEncodable p.events
      → (q : EventPayload) × (encrypt aes key p ≡ ok q) × IsDelivered aes key p q secs
  decrypt-encrypt p secs = delivers p secs p.events refl
