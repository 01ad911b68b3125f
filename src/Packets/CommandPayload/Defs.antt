-- ===== src/Packets/CommandPayload/Defs.antt =====
-- The operations of `CommandPayload`.
use chirpstack_gateway_mesh.Common.{
  ℕ, suc, ◌%◌, ◌^◌, true, List, [], ◌∷◌, ◌++◌, if◌then◌else◌, length, is_empty,
}
use chirpstack_gateway_mesh.Common.Bytes.{Bytes4, to_list, u32_to_be_bytes}
use chirpstack_gateway_mesh.Common.Result.{
  Result, ok, err, ◌>>=◌, one_item_expected, encrypted_item_expected,
}
use chirpstack_gateway_mesh.Common.Cursor.{decode_loop}
use chirpstack_gateway_mesh.Common.Time.{SystemTime, unix_secs}
use chirpstack_gateway_mesh.Aes128.{Aes128Key, BlockCipher}
use chirpstack_gateway_mesh.Packets.Crypt.{encrypt_events_commands}
use chirpstack_gateway_mesh.Packets.Items.{encode_items}
use chirpstack_gateway_mesh.Packets.Command
use chirpstack_gateway_mesh.Packets.Command.{Command}
use chirpstack_gateway_mesh.Packets.CommandPayload.Slice.{CommandPayload, read_payload}

unfoldable pub from_slice : List ℕ → Result CommandPayload
unfolding read_payload
from_slice b = (read_payload b).0

unfoldable pub to_vec : CommandPayload → Result (List ℕ)
to_vec p = do
  secs ← unix_secs p.timestamp
  b ← encode_items Command.encode p.commands
  ok (to_list (u32_to_be_bytes (secs % 2 ^ 32)) ++ (to_list p.relay_id ++ b))

-- The loop of `decrypt` and `decode` over a buffer, with one round of fuel more than bytes.
unfoldable pub decode_all : List ℕ → Result (List Command)
decode_all b = decode_loop Command.decode (suc (length b)) b

-- `if let Command::Encrypted(b) = &self.commands[0]` of `decode`: another command is left as it is.
unfoldable pub decode_first : List Command → Result (List Command)
unfolding decode_all
decode_first [] = ok []
decode_first (Command.encrypted b ∷ rest) = decode_all b
decode_first (Command.proprietary t v ∷ rest) = ok (Command.proprietary t v ∷ rest)

unfoldable pub decode : CommandPayload → Result CommandPayload
unfolding decode_first
decode p = do commands ← decode_first p.commands; ok (record p { commands = commands })

module _ (aes : BlockCipher) (key : Aes128Key) where
  unfoldable pub encrypt : CommandPayload → Result CommandPayload
  encrypt p = if is_empty p.commands then ok p else do
    b ← encode_items Command.encode p.commands
    c ← encrypt_events_commands aes key true p.relay_id p.timestamp b
    ok (record p { commands = Command.encrypted c ∷ [] })

  -- The checks of `decrypt` on the items, and the decryption of the only one.
  unfoldable pub decrypt_items : SystemTime → Bytes4 → List Command → Result (List Command)
  unfolding decode_all
  decrypt_items timestamp relay_id [] = ok []
  decrypt_items timestamp relay_id (Command.encrypted c ∷ []) = do
    b ← encrypt_events_commands aes key true relay_id timestamp c
    decode_all b
  decrypt_items timestamp relay_id (Command.proprietary t v ∷ []) = err encrypted_item_expected
  decrypt_items timestamp relay_id (e ∷ e' ∷ rest) = err one_item_expected

  unfoldable pub decrypt : CommandPayload → Result CommandPayload
  unfolding decrypt_items
  decrypt p = do
    commands ← decrypt_items p.timestamp p.relay_id p.commands
    ok (record p { commands = commands })
