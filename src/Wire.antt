-- ===== src/Wire.antt =====
-- Packets as bytes: WhiteboardPacket::serialize of src/base/packet.cpp writes one, and parse_packet, the
-- same in src/server/server.cpp and src/client/client.cpp, reads one.
pub mod RoundTrip
use xyzwhiteboard.Base.{
  ℕ, ◌%◌, ◌^◌, ◌<◌, Bool, true, List, [], ◌∷◌, ◌++◌, ◌≡◌, if◌then◌else◌, leb, length, take, drop,
}
use xyzwhiteboard.Action.{PacketMessage}
use xyzwhiteboard.Packet.{WhiteboardPacket}

-- The calls of protobuf, on lists of bytes. `read_varint32` gives what the variable holds after the
-- call and the bytes that are left, also where it fails; `short_read` is what ReadRaw leaves in a
-- buffer of so many bytes where the input ends before; `parse_message` is what ParseFromString leaves
-- in the message, also where it fails.
pub record Protobuf : Type 0 where
  pub write_varint32 : ℕ → List ℕ
  pub read_varint32 : List ℕ → ℕ × List ℕ
  pub short_read : ℕ → List ℕ → List ℕ
  pub serialize_message : PacketMessage → List ℕ
  pub parse_message : List ℕ → PacketMessage

-- What protobuf documents: a varint reads back and leaves what follows, and so does a message that
-- protobuf can carry, of at most so many bytes.
pub record DocumentedWire (P : Protobuf) : Type 1 where
  pub Carried : PacketMessage → Type 0
  pub read-write_varint32 :
      (n : ℕ) (rest : List ℕ)
      → n < 2 ^ 32
      → P.read_varint32 (P.write_varint32 n ++ rest) ≡ (n, rest)
  pub parse-serialize_message :
      (m : PacketMessage) → Carried m → P.parse_message (P.serialize_message m) ≡ m
  pub size : (m : PacketMessage) → Carried m → length (P.serialize_message m) < 2 ^ 31

-- The byte '\n'.
abbrev pub newline : ℕ
newline = 10

module _ (P : Protobuf) where
  -- WhiteboardPacket::byte_size
  abbrev pub byte_size : WhiteboardPacket → ℕ
  byte_size p = length (P.serialize_message p.packet)

  -- serialize(CodedOutputStream *). WriteVarint32 takes a uint32_t.
  unfoldable pub serialize : WhiteboardPacket → List ℕ
  serialize p =
      P.write_varint32 (byte_size p % 2 ^ 32) ++ (P.serialize_message p.packet ++ newline ∷ [])

  -- code_input_stream.ReadRaw into a string of that size.
  read_raw : ℕ → List ℕ → List ℕ
  read_raw message_size bytes =
      if leb message_size (length bytes)
      then take message_size bytes
      else P.short_read message_size bytes

  -- A failure of ReadRaw or of ParseFromString is printed, and the message is returned all the same.
  unfoldable pub parse_packet : List ℕ → PacketMessage
  unfolding read_raw
  parse_packet buffer =
      let header = P.read_varint32 buffer in P.parse_message (read_raw header.0 header.1)
