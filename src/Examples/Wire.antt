-- ===== src/Examples/Wire.antt =====
-- A serialization that behaves as Wire documents, and uses of the theorems on packets as bytes.
use xyzwhiteboard.Base.{ℕ, some, true, List, [], ◌∷◌, ◌++◌, ◌≡◌, refl, sym, arith, map}
use xyzwhiteboard.Action.{PacketMessage, PacketAction}
use xyzwhiteboard.Packet.{of_uint32, WhiteboardPacket, WhiteboardPacketType, construct}
use xyzwhiteboard.Wire.{Protobuf, DocumentedWire, serialize, parse_packet}
use xyzwhiteboard.Wire.RoundTrip.{parse_packet-serialize}
use xyzwhiteboard.Server.Connection.{handle_connection, Status, disconnected, eof}
use xyzwhiteboard.Server.Connection.Disconnect.{join_disconnect}
use xyzwhiteboard.Server.State.{Server}
use xyzwhiteboard.Server.Sessions.Laws.{connected}
use xyzwhiteboard.Examples.Boards.{s, doc}
use xyzwhiteboard.Server.Connection.Frames.{handle_packets, frame, handle_connection-frames}
use xyzwhiteboard.Examples.Memory.{Memory, memory, documented, host}
use xyzwhiteboard.Examples.Users.{one_user}

abbrev read_byte : List ℕ → ℕ × List ℕ
read_byte [] = (0, [])
read_byte (b ∷ bs) = (b, bs)

-- A serialization for the messages of one type and one action, by their packet id: a message is two
-- bytes, the first of them a newline.
module _ (packet_type : ℕ) (action : PacketAction) where
  abbrev pub of_id : ℕ → PacketMessage
  of_id id = record { version = 1; packet_type = packet_type; packet_id = id; action = some action }

  abbrev parse_message : List ℕ → PacketMessage
  parse_message (_ ∷ id ∷ []) = of_id id
  parse_message _ = of_id 0

  abbrev pub codec : Protobuf
  codec = record {
    write_varint32 = λ n. n ∷ [];
    read_varint32 = read_byte;
    short_read = λ n bytes. bytes;
    serialize_message = λ m. 10 ∷ m.packet_id ∷ [];
    parse_message = parse_message;
  }

  abbrev pub documented_codec : DocumentedWire codec
  documented_codec = record {
    Carried = λ m. m ≡ of_id m.packet_id;
    read-write_varint32 = λ n rest small. refl;
    parse-serialize_message = λ m h. sym h;
    size = λ m h. omega arith;
  }

abbrev registration : PacketAction
registration = PacketAction.register_request (record { username = "ann"; password_hash = "pw" })

abbrev carried : ℕ → PacketMessage
carried = of_id 9 registration

abbrev pub protobuf : Protobuf
protobuf = codec 9 registration

abbrev documented_wire : DocumentedWire protobuf
documented_wire = documented_codec 9 registration

abbrev packet : ℕ → WhiteboardPacket
packet id = record (construct 1 WhiteboardPacketType.register_request id) { packet = carried id }

parse_packet-serialize_example :
    parse_packet protobuf (serialize protobuf (packet 5) ++ 2 ∷ 10 ∷ []) ≡ carried 5
parse_packet-serialize_example =
    parse_packet-serialize protobuf documented_wire (packet 5) refl (2 ∷ 10 ∷ [])

abbrev frames : List (WhiteboardPacket × List ℕ)
frames = (packet 5, []) ∷ (packet 6, 2 ∷ 10 ∷ []) ∷ []

handle_connection-frames_example :
    handle_connection memory host protobuf 4 (map (frame memory host protobuf) frames) one_user
    ≡ handle_packets memory host 4 (carried 5 ∷ carried 6 ∷ []) one_user
handle_connection-frames_example =
    handle_connection-frames memory host protobuf documented_wire 4 frames one_user
      (refl, (refl, tt))

abbrev joining : PacketAction
joining = PacketAction.join_session (record { user_id = 8; whiteboard_id = "o" })

abbrev join_packet : WhiteboardPacket
join_packet = record (construct 1 WhiteboardPacketType.join_session 5) {
  packet = of_id 3 joining 5;
}

-- Client 8 joins at socket 5, and goes.
abbrev gone : Status × Server Memory
gone =
    handle_connection memory host (codec 3 joining) 5
      (frame memory host (codec 3 joining) (join_packet, 2 ∷ 10 ∷ []) ∷ eof ∷ []) s

join_disconnect_example :
    (gone.0 ≡ disconnected) × (connected "o" 5 gone.1.whiteboard_sessions ≡ true)
unfolding of_uint32
join_disconnect_example =
    join_disconnect memory documented host (codec 3 joining) (documented_codec 3 joining)
      join_packet (2 ∷ 10 ∷ []) 5 s 0 doc (7 ∷ 9 ∷ []) refl refl refl refl (omega arith) refl
