-- ===== src/Packets/EventPayload/Safety.antt =====
-- The code of an event payload returns on every input, and a decrypted payload holds no ciphertext.
use chirpstack_gateway_mesh.Common.{ℕ, suc, ◌≡◌, refl, false, List, [], ◌∷◌, length, All, arith}
use chirpstack_gateway_mesh.Common.Bytes.{Bytes4, bytes4}
use chirpstack_gateway_mesh.Common.Result.{ok, >>=-eq-ok, ok_injective, IsSettled, IsSettled->>=}
use chirpstack_gateway_mesh.Common.Cursor.{decode_loop-All, decode_loop_total, read_exact}
use chirpstack_gateway_mesh.Common.Time.{SystemTime}
use chirpstack_gateway_mesh.Aes128.{Aes128Key, BlockCipher}
use chirpstack_gateway_mesh.Packets.Crypt.{
  encrypt_events_commands, encrypt_events_commands-IsSettled,
}
use chirpstack_gateway_mesh.Packets.Event
use chirpstack_gateway_mesh.Packets.Event.{Event}
use chirpstack_gateway_mesh.Packets.EventPayload.Slice.{EventPayload, read_payload_lem}
use chirpstack_gateway_mesh.Packets.EventPayload.Defs.{
  from_slice, decrypt, decrypt_items, decode_all,
}
use mathlib.Core.Path.{subst, sym}

decode_all_total : (b : List ℕ) → (es : List Event) × (decode_all b ≡ ok es)
unfolding decode_all
decode_all_total b =
    decode_loop_total Event.decode Event.decode-Progresses (suc (length b)) b (omega arith)

decode_all-IsSettled : (b : List ℕ) → IsSettled (decode_all b)
decode_all-IsSettled b = let (es, e) = decode_all_total b in rw e tt

decode_all-IsPlain : (b : List ℕ) {es : List Event} → decode_all b ≡ ok es → All Event.IsPlain es
unfolding decode_all
decode_all-IsPlain b =
    decode_loop-All Event.decode Event.IsPlain Event.decode-IsPlain (suc (length b)) b

-- A slice of any length is read or refused.
pub from_slice-IsSettled : (b : List ℕ) → IsSettled (from_slice b)
unfolding from_slice read_exact
from_slice-IsSettled (x0 ∷ x1 ∷ x2 ∷ x3 ∷ y0 ∷ y1 ∷ y2 ∷ y3 ∷ b) =
    subst (λ r. IsSettled r.0) (sym (read_payload_lem (bytes4 x0 x1 x2 x3) (bytes4 y0 y1 y2 y3) b))
      tt
from_slice-IsSettled _ = tt

module _ (aes : BlockCipher) (key : Aes128Key) where
  decrypt_items-IsSettled :
      (t : SystemTime) (id : Bytes4) (es : List Event) → IsSettled (decrypt_items aes key t id es)
  unfolding decrypt_items
  decrypt_items-IsSettled t id [] = tt
  decrypt_items-IsSettled t id (Event.encrypted c ∷ []) =
      IsSettled->>= (encrypt_events_commands aes key false id t c) decode_all
        (encrypt_events_commands-IsSettled aes key false id t c) decode_all-IsSettled
  decrypt_items-IsSettled t id (Event.heartbeat h ∷ []) = tt
  decrypt_items-IsSettled t id (Event.proprietary s v ∷ []) = tt
  decrypt_items-IsSettled t id (e ∷ f ∷ es) = tt

  -- Decryption ends, and does not panic, whatever the payload and the key.
  pub decrypt-IsSettled : (p : EventPayload) → IsSettled (decrypt aes key p)
  unfolding decrypt
  decrypt-IsSettled p =
      IsSettled->>= (decrypt_items aes key p.timestamp p.relay_id p.events)
        (λ es. ok (record p { events = es }))
        (decrypt_items-IsSettled p.timestamp p.relay_id p.events) (λ es. tt)

  decrypt_items-IsPlain :
      (t : SystemTime) (id : Bytes4) (es : List Event) {fs : List Event}
      → decrypt_items aes key t id es ≡ ok fs
      → All Event.IsPlain fs
  unfolding decrypt_items
  decrypt_items-IsPlain t id [] e = subst (All Event.IsPlain) (ok_injective e) tt
  decrypt_items-IsPlain t id (Event.encrypted c ∷ []) e =
      let (b, first, second) =
        >>=-eq-ok (encrypt_events_commands aes key false id t c) decode_all e in
      decode_all-IsPlain b second
  decrypt_items-IsPlain t id (Event.heartbeat h ∷ []) e = absurd (cc e)
  decrypt_items-IsPlain t id (Event.proprietary s v ∷ []) e = absurd (cc e)
  decrypt_items-IsPlain t id (f ∷ g ∷ es) e = absurd (cc e)

  -- A decrypted payload holds no ciphertext, and is of the same time and relay.
  pub decrypt-IsPlain :
      (p : EventPayload) {q : EventPayload}
      → decrypt aes key p ≡ ok q
      → All Event.IsPlain q.events × (q.timestamp ≡ p.timestamp) × (q.relay_id ≡ p.relay_id)
  unfolding decrypt
  decrypt-IsPlain p e =
      let (es, first, second) =
        >>=-eq-ok (decrypt_items aes key p.timestamp p.relay_id p.events)
          (λ es. ok (record p { events = es })) e in
      let same = ok_injective second in
      (
        subst (λ q. All Event.IsPlain q.events) same
            (decrypt_items-IsPlain p.timestamp p.relay_id p.events first),
        subst (λ q. q.timestamp ≡ p.timestamp) same refl,
        subst (λ q. q.relay_id ≡ p.relay_id) same refl,
      )
