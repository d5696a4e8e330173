-- ===== src/Examples/Streams.antt =====
-- The theorems on streams, for one packet.
use loopix_messaging.Prelude.{◌≡◌, refl, [], ◌∷◌, ◌++◌, Bytes, ok, ◌>>=◌, drop, arith}
use loopix_messaging.Messages.{GeneralPacket}
use loopix_messaging.Rpc.{bare, write_proto_message, read_proto_message}
use loopix_messaging.Rpc.Framing.{
  read_proto_message-write_proto_message, read_proto_message-half_length,
}
use loopix_messaging.Examples.Codecs.{pack, toy_general_packet, toy_general_packet-IsCodec}

abbrev packet : GeneralPacket
packet = record { flag = 0xc6 ∷ []; data_ = 1 ∷ 2 ∷ [] }

abbrev packet_bytes : Bytes
packet_bytes = pack ((0xc6 ∷ []) ∷ (1 ∷ 2 ∷ []) ∷ [])

read_proto_message-write_proto_message_example :
    (written : Bytes) × (write_proto_message toy_general_packet packet ≡ ok written)
    × (read_proto_message toy_general_packet (bare 1) 8 (written ++ (7 ∷ 8 ∷ []))
        ≡ ok (packet, 8 ∷ []))
read_proto_message-write_proto_message_example =
    read_proto_message-write_proto_message toy_general_packet (λ p. p)
      toy_general_packet-IsCodec.unmarshal-marshal (bare 1) 8 packet packet_bytes (7 ∷ 8 ∷ [])
      (omega arith) refl (omega arith)

read_proto_message-half_length_example :
    (written : Bytes) × (write_proto_message toy_general_packet packet ≡ ok written)
    × (read_proto_message toy_general_packet (bare 1) 4 (written ++ (7 ∷ 8 ∷ []))
        ≡ (toy_general_packet.unmarshal [] >>= λ m. ok (m, drop 4 (written ++ (7 ∷ 8 ∷ [])))))
read_proto_message-half_length_example =
    read_proto_message-half_length toy_general_packet (λ p. p)
      toy_general_packet-IsCodec.unmarshal-marshal (bare 1) packet packet_bytes (7 ∷ 8 ∷ []) refl
      (omega arith)
