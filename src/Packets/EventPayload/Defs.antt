-- ===== src/Packets/EventPayload/Defs.antt =====
-- The operations of `EventPayload`.
use chirpstack_gateway_mesh.Common.{
  ℕ, suc, ◌%◌, ◌^◌, false, List, [], ◌∷◌, ◌++◌, if◌then◌else◌, length, is_empty,
}
use chirpstack_gateway_mesh.Common.Bytes.{Bytes4, to_list, u32_to_be_bytes}
use chirpstack_gateway_mesh.Common.Result.{
  Result, ok, err, ◌>>=◌, one_item_expected, encrypted_item_expected,
}
use chirpstack_gateway_mesh.Common.Cursor.{decode_loop}
use chirpstack_gateway_mesh.Common.Time.{SystemTime, unix_secs}
use chirpstack_gateway_mesh.Aes128.{Aes128Key, BlockCipher}
use chirpstack_gateway_mesh.Packets.Crypt.{encrypt_events_commands}
use chirpstack_gateway_mesh.Packets.Items.{encode_items}
use chirpstack_gateway_mesh.Packets.Event
use chirpstack_gateway_mesh.Packets.Event.{Event}
use chirpstack_gateway_mesh.Packets.EventPayload.Slice.{EventPayload, read_payload}

unfoldable pub from_slice : List ℕ → Result EventPayload
unfolding read_payload
from_slice b = (read_payload b).0

unfoldable pub to_vec : EventPayload → Result (List ℕ)
to_vec p = do
  secs ← unix_secs p.timestamp
  b ← encode_items Event.encode p.events
  ok (to_list (u32_to_be_bytes (secs % 2 ^ 32)) ++ (to_list p.relay_id ++ b))

-- The loop of `decrypt` and `decode` over a buffer, with one round of fuel more than bytes.
unfoldable pub decode_all : List ℕ → Result (List Event)
decode_all b = decode_loop Event.decode (suc (length b)) b

-- `if let Event::Encrypted(b) = &self.events[0]` of `decode`: another event is left as it is.
unfoldable pub decode_first : List Event → Result (List Event)
unfolding decode_all
decode_first [] = ok []
decode_first (Event.encrypted b ∷ rest) = decode_all b
decode_first (Event.heartbeat h ∷ rest) = ok (Event.heartbeat h ∷ rest)
decode_first (Event.proprietary t v ∷ rest) = ok (Event.proprietary t v ∷ rest)

unfoldable pub decode : EventPayload → Result EventPayload
unfolding decode_first
decode p = do events ← decode_first p.events; ok (record p { events = events })

module _ (aes : BlockCipher) (key : Aes128Key) where
  unfoldable pub encrypt : EventPayload → Result EventPayload
  encrypt p = if is_empty p.events then ok p else do
    b ← encode_items Event.encode p.events
    c ← encrypt_events_commands aes key false p.relay_id p.timestamp b
    ok (record p { events = Event.encrypted c ∷ [] })

  -- The checks of `decrypt` on the items, and the decryption of the only one.
  unfoldable pub decrypt_items : SystemTime → Bytes4 → List Event → Result (List Event)
  unfolding decode_all
  decrypt_items timestamp relay_id [] = ok []
  decrypt_items timestamp relay_id (Event.encrypted c ∷ []) = do
    b ← encrypt_events_commands aes key false relay_id timestamp c
    decode_all b
  decrypt_items timestamp relay_id (Event.heartbeat h ∷ []) = err encrypted_item_expected
  decrypt_items timestamp relay_id (Event.proprietary t v ∷ []) = err encrypted_item_expected
  decrypt_items timestamp relay_id (e ∷ e' ∷ rest) = err one_item_expected

  unfoldable pub decrypt : EventPayload → Result EventPayload
  unfolding decrypt_items
  decrypt p = do
    events ← decrypt_items p.timestamp p.relay_id p.events
    ok (record p { events = events })
