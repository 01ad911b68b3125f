-- ===== src/Tests/Wire.antt =====
-- Runs of the theorems on packets and their bytes.
use chirpstack_gateway_mesh.Common.{
  ℕ, ◌*◌, ◌%◌, ◌≡◌, ◌↔◌, refl, true, false, List, [], ◌∷◌, ◌++◌, some, length, take, drop, All,
  arith, replicate,
}
use chirpstack_gateway_mesh.Common.Bytes.{Bytes4, to_list}
use chirpstack_gateway_mesh.Common.Result.{ok, ◌>>=◌}
use chirpstack_gateway_mesh.Packets.Freq.{
  to_list3, encode_freq, decode_freq, decode_freq-encode_freq_doubled,
}
use chirpstack_gateway_mesh.Packets.Crypt.{
  encrypt_padded, encrypt_padded-xor, xor_bytes, keystream, block_count,
}
use chirpstack_gateway_mesh.Packets.Event
use chirpstack_gateway_mesh.Packets.Event.{Event}
use chirpstack_gateway_mesh.Packets.EventPayload
use chirpstack_gateway_mesh.Packets.EventPayload.{EventPayload, IsDelivered}
use chirpstack_gateway_mesh.Packets.Mhdr
use chirpstack_gateway_mesh.Packets.PayloadType
use chirpstack_gateway_mesh.Packets.UplinkPayload
use chirpstack_gateway_mesh.Packets.UplinkMetadata
use chirpstack_gateway_mesh.Packets.MeshPacket
use chirpstack_gateway_mesh.Packets.MeshPacket.{
  MeshPacket, IsSendable, IsTransported, arrival, transport, validate_mic_iff,
}
use chirpstack_gateway_mesh.Tests.Data.{
  toy_aes, toy_aes-IsBlockCipher, toy_cmac, toy_cmac-IsMac, some_key, relay, some_events,
  event_packet, uplink_packet,
}

some_events-IsEncodable : All Event.IsEncodable some_events.events
some_events-IsEncodable =
    ((ground arith, omega arith, (omega arith, (omega arith, tt)), omega arith), tt)

event_packet-IsSendable : IsSendable event_packet
event_packet-IsSendable = record {
  hops_min = omega arith;
  hops_max = omega arith;
  fits = (refl, refl, some_events-IsEncodable);
}

transport_example :
    IsTransported toy_aes toy_cmac some_key some_key event_packet (arrival event_packet.payload)
transport_example =
    transport toy_aes toy_aes-IsBlockCipher some_key refl toy_cmac toy_cmac-IsMac some_key
      event_packet event_packet-IsSendable

abbrev uplink_body : List ℕ
uplink_body = 18 ∷ 193 ∷ 80 ∷ 59 ∷ 0 ∷ 1 ∷ 2 ∷ 3 ∷ 4 ∷ 64 ∷ 9 ∷ []

uplink_header : Mhdr.to_byte uplink_packet.mhdr ≡ ok 231
unfolding Mhdr.to_byte PayloadType.to_byte
uplink_header = refl

uplink_written : MeshPacket.payload_to_vec uplink_packet.payload ≡ ok uplink_body
unfolding MeshPacket.payload_to_vec UplinkPayload.to_vec UplinkMetadata.to_bytes
uplink_written = refl

validate_mic_iff_example : (MeshPacket.validate_mic toy_cmac some_key uplink_packet ≡ ok true) ↔ (
    (m : Bytes4) × (uplink_packet.mic ≡ some m)
    × (to_list m ≡ take 4 (toy_cmac some_key.bytes (231 ∷ uplink_body))))
validate_mic_iff_example =
    validate_mic_iff toy_cmac some_key uplink_packet 231 uplink_body toy_cmac-IsMac uplink_header
      uplink_written

decrypt-encrypt_example :
    (q : EventPayload) × (EventPayload.encrypt toy_aes some_key some_events ≡ ok q)
    × IsDelivered toy_aes some_key some_events q 1700000000
decrypt-encrypt_example =
    EventPayload.decrypt-encrypt toy_aes toy_aes-IsBlockCipher some_key refl some_events 1700000000
      refl some_events-IsEncodable

encrypt_padded-xor_example :
    encrypt_padded toy_aes some_key false relay 5 (1 ∷ 2 ∷ [])
    ≡ xor_bytes (1 ∷ 2 ∷ []) (keystream toy_aes some_key false relay 5 (block_count (1 ∷ 2 ∷ [])) 0)
encrypt_padded-xor_example =
    encrypt_padded-xor toy_aes toy_aes-IsBlockCipher some_key refl false relay 5 (1 ∷ 2 ∷ [])

decode_freq-encode_freq_doubled_example :
    (encode_freq 1300000000 >>= λ b. decode_freq (to_list3 b)) ≡ ok (1300000000 * 2)
decode_freq-encode_freq_doubled_example =
    decode_freq-encode_freq_doubled 1300000000 (omega arith) (omega arith) refl

abbrev long_event : List ℕ
long_event = replicate 300 1

decode-encode_cut_example :
    (Event.encode (Event.proprietary 9 long_event) >>= λ b. ok (Event.decode (b ++ [])))
    ≡ ok (
      ok (Event.proprietary 9 (take (length long_event % 256) long_event)),
      drop (length long_event % 256) long_event ++ [],
    )
decode-encode_cut_example = Event.decode-encode_cut 9 long_event [] (ground arith)
