-- ===== src/Server/Connection.antt =====
-- src/server/server.cpp: the loop of handle_connection. What the socket gives to the loop is a list
-- of reads.
pub mod Keeps
pub mod Frames
pub mod Disconnect
pub mod Sessions
pub mod Writes
pub mod Replies
pub mod Accounts
use xyzwhiteboard.Base.{ℕ, List, [], ◌∷◌}
use xyzwhiteboard.Base.Fail.{Result, ok, thrown, Action, pure}
use xyzwhiteboard.Action.{PacketMessage}
use xyzwhiteboard.Packet.{
  WhiteboardPacketType, of_uint32, create_whiteboard, create_session, join_session, quit_session,
  add_element, modify_element, login_request, register_request,
}
use xyzwhiteboard.Wire.{Protobuf, parse_packet}
use xyzwhiteboard.Server.Mongo.{Mongo}
use xyzwhiteboard.Server.State.{Server, Host}
use xyzwhiteboard.Server.Users.{handle_register_request, handle_login_request}
use xyzwhiteboard.Server.Boards.{
  handle_create_whiteboard_request, handle_create_session_request, handle_join_session_request,
  handle_quit_session_request,
}
use xyzwhiteboard.Server.Elements.{handle_add_element_request, handle_modify_element_request}

-- How read_until ends: with the bytes in the buffer, a newline among them, at the end of the stream,
-- or with another error.
pub data Read : Type 0 where
  received : List ℕ → Read
  eof failed : Read

-- How the loop stands: it reads on, the client has gone, or an exception was caught.
pub data Status : Type 0 where
  reading disconnected caught : Status

module _ (M : Mongo) (host : Host) where
  -- The cases of the `switch`.
  dispatch : WhiteboardPacketType → PacketMessage → ℕ → Action (Server M.Db) (Unit {0})
  dispatch create_whiteboard packet socket = handle_create_whiteboard_request M host packet socket
  dispatch create_session packet socket = handle_create_session_request M host packet socket
  dispatch join_session packet socket = handle_join_session_request M host packet socket
  dispatch quit_session packet socket = handle_quit_session_request M host packet socket
  dispatch add_element packet socket = handle_add_element_request M host packet socket
  dispatch modify_element packet socket = handle_modify_element_request M host packet socket
  dispatch login_request packet socket = handle_login_request M host packet socket
  dispatch register_request packet socket = handle_register_request M host packet socket
  dispatch _ packet socket = pure tt

  unfoldable pub handle_packet : PacketMessage → ℕ → Action (Server M.Db) (Unit {0})
  unfolding dispatch of_uint32
  handle_packet packet socket = dispatch (of_uint32 packet.packet_type) packet socket

  -- The loop, until it ends or the reads given are used up. The buffer is new in each pass, so that
  -- what parse_packet leaves in it is gone.
  unfoldable pub handle_connection : Protobuf → ℕ → List Read → Server M.Db → Status × Server M.Db
  unfolding handle_packet parse_packet
  handle_connection P socket [] s = (reading, s)
  handle_connection P socket (eof ∷ reads) s = (disconnected, s)
  handle_connection P socket (failed ∷ reads) s = (caught, s)
  handle_connection P socket (received buffer ∷ reads) s =
      let (result, s') = handle_packet (parse_packet P buffer) socket s in
      elim result [ ok done ↦ handle_connection P socket reads s' | thrown e ↦ (caught, s') ]

  -- The packets of many connections, as the sockets' threads take turns; an exception ends its own
  -- connection only, and what was changed before it stays.
  unfoldable pub serve : List (ℕ × PacketMessage) → Server M.Db → Server M.Db
  unfolding handle_packet
  serve [] s = s
  serve ((socket, packet) ∷ events) s = serve events (handle_packet packet socket s).1
