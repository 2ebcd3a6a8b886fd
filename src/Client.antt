-- ===== src/Client.antt =====
-- src/client/client.hpp and src/client/client.cpp: the class WhiteboardClient, its state and the requests
-- that it sends. What it receives is in `Receive`, and how it connects in `Connect`.
pub mod Connect
pub mod Receive
use xyzwhiteboard.Base.{
  ℕ, ◌+◌, ◌%◌, ◌^◌, String, Bool, true, Option, none, some, List, [], ◌∷◌, ◌++◌, ◌==◌,
  if◌then◌else◌,
}
use xyzwhiteboard.Base.Fail.{Result, ok, thrown, Action, ◌>>=◌, ◌>>◌, pure, gets, throw, continue}
use xyzwhiteboard.Element.{WhiteboardElements, Access, value, unmatch, out_of_bounds}
use xyzwhiteboard.Action.{PacketMessage}
use xyzwhiteboard.Packet.{WhiteboardPacket, WhiteboardPacketType, construct}
use xyzwhiteboard.Packet.Build.{
  new_create_whiteboard_request, new_create_session_request, new_join_session_request,
  new_quit_session_request, new_add_element_request, new_login_request, new_register_request,
}
use xyzwhiteboard.Sha256.Text.{hash_string}

-- std::unordered_map<uint32_t, WhiteboardPacketType>
abbrev pub SendQueue : Type 0
SendQueue = List (ℕ × WhiteboardPacketType)

-- `sent` holds the packets written to the socket, in order. Of the members, `user_id` and
-- `whiteboard_id` are set by responses, and the io_context and the timers are in `Connect`.
pub record Client : Type 0 where
  pub user_id : ℕ
  pub whiteboard_id : String
  pub packet_counter : ℕ
  pub send_queue : SendQueue
  pub received_queue : List WhiteboardPacket
  pub sent : List PacketMessage

-- The member `version`.
abbrev pub version : ℕ
version = 1

-- send_queue[id] = type
unfoldable pub set_type : ℕ → WhiteboardPacketType → SendQueue → SendQueue
set_type id type [] = (id, type) ∷ []
set_type id type ((j, old) ∷ q) = if j == id then (id, type) ∷ q else (j, old) ∷ set_type id type q

unfoldable pub find_type : ℕ → SendQueue → Option WhiteboardPacketType
find_type id [] = none
find_type id ((j, type) ∷ q) = if j == id then some type else find_type id q

-- `write` is boost::asio::write of a packet's bytes, which may throw.
module _ (write : PacketMessage → Result (Unit {0})) where
  record_sent : WhiteboardPacket → Action Client (Unit {0})
  unfolding set_type
  record_sent packet c =
      (ok tt, record c { send_queue = set_type packet.packet_id packet.type c.send_queue })

  pub write_packet : PacketMessage → Action Client (Unit {0})
  write_packet m c = elim (write m) [
    | ok done ↦ (ok tt, record c { sent = c.sent ++ m ∷ [] })
    | thrown e ↦ (thrown e, c)
  ]

  -- The packet's id and type are noted before it is written.
  unfoldable pub send_packet : WhiteboardPacket → Action Client (Unit {0})
  unfolding record_sent write_packet
  send_packet packet = do record_sent packet; write_packet packet.packet

  -- WhiteboardPacket packet(version, type, ++packet_counter)
  unfoldable pub new_packet : WhiteboardPacketType → Action Client WhiteboardPacket
  new_packet type c =
      let counter = (c.packet_counter + 1) % 2 ^ 32 in
      (ok (construct version type counter), record c { packet_counter = counter })

  unfoldable pub send_create_whiteboard_request : Action Client (Unit {0})
  unfolding send_packet new_packet new_create_whiteboard_request
  send_create_whiteboard_request = do
    packet ← new_packet WhiteboardPacketType.create_whiteboard
    user_id ← gets (λ c. c.user_id)
    send_packet (new_create_whiteboard_request user_id packet)

  unfoldable pub send_create_session_request : Action Client (Unit {0})
  unfolding send_packet new_packet new_create_session_request
  send_create_session_request = do
    packet ← new_packet WhiteboardPacketType.create_session
    user_id ← gets (λ c. c.user_id)
    whiteboard_id ← gets (λ c. c.whiteboard_id)
    send_packet (new_create_session_request user_id whiteboard_id packet)

  unfoldable pub send_join_session_request : String → Action Client (Unit {0})
  unfolding send_packet new_packet new_join_session_request
  send_join_session_request whiteboard_id = do
    packet ← new_packet WhiteboardPacketType.join_session
    user_id ← gets (λ c. c.user_id)
    send_packet (new_join_session_request user_id whiteboard_id packet)

  unfoldable pub send_quit_session_request : Action Client (Unit {0})
  unfolding send_packet new_packet new_quit_session_request
  send_quit_session_request = do
    packet ← new_packet WhiteboardPacketType.quit_session
    user_id ← gets (λ c. c.user_id)
    whiteboard_id ← gets (λ c. c.whiteboard_id)
    send_packet (new_quit_session_request user_id whiteboard_id packet)

  -- What the conversion of an element throws goes on to the caller.
  send_converted : Access WhiteboardPacket → Action Client (Unit {0})
  unfolding send_packet
  send_converted (value packet) = send_packet packet
  send_converted (unmatch e) = throw e
  send_converted out_of_bounds = throw "read out of bounds"

  unfoldable pub send_add_element_request : WhiteboardElements → Action Client (Unit {0})
  unfolding send_converted new_packet new_add_element_request
  send_add_element_request ele = do
    packet ← new_packet WhiteboardPacketType.add_element
    user_id ← gets (λ c. c.user_id)
    whiteboard_id ← gets (λ c. c.whiteboard_id)
    send_converted (new_add_element_request user_id whiteboard_id ele packet)

  -- SHA256 sha; sha.update(password); sha.toString(sha.digest())
  unfoldable pub send_login_request : String → String → Action Client (Unit {0})
  unfolding send_packet new_packet new_login_request hash_string
  send_login_request username password = do
    packet ← new_packet WhiteboardPacketType.login_request
    send_packet (new_login_request username (hash_string password) packet)

  unfoldable pub send_register_request : String → String → Action Client (Unit {0})
  unfolding send_packet new_packet new_register_request hash_string
  send_register_request username password = do
    packet ← new_packet WhiteboardPacketType.register_request
    send_packet (new_register_request username (hash_string password) packet)
