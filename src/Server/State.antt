-- ===== src/Server/State.antt =====
-- src/server/server.hpp: the state of WhiteboardServer, and from server.cpp send_packet. A
-- handler is an action on the state that runs to its end; Server.Acts has its acts apart.
use xyzwhiteboard.Base.{ℕ, ◌+◌, String, Bool, true, ◌==◌, if◌then◌else◌, List, [], ◌∷◌, ◌++◌}
use xyzwhiteboard.Base.Fail.{Result, ok, Action}
use xyzwhiteboard.Proto.{Element}
use xyzwhiteboard.Action.{PacketMessage}
use xyzwhiteboard.Packet.{WhiteboardPacket, WhiteboardPacketType, construct}
use xyzwhiteboard.Packet.Build.{new_action_response}
use xyzwhiteboard.Server.Sessions.{Sessions, is_whiteboard_shared}

-- Does a write return, after the packets that were written before?
abbrev pub Writes : Type 0
Writes = List (ℕ × PacketMessage) → ℕ → PacketMessage → Bool

-- What the server takes from outside: the values of rand(), of the clock and of the salt's random
-- device at each draw, and protobuf's serialization of elements. `parse_element` is what
-- ParseFromString leaves in the message, also where it fails. `writes` says whether
-- boost::asio::write returns, after the packets written before, rather than throws.
pub record Host : Type 0 where
  pub rand : ℕ → ℕ
  pub now : ℕ → ℕ
  pub uniform : ℕ → ℕ → ℕ
  pub serialize_element : Element → String
  pub parse_element : String → Element
  pub writes : Writes

-- The same surroundings with other sockets, and with sockets that never fail.
abbrev pub with_writes : Host → Writes → Host
with_writes host writes = record host { writes = writes }

abbrev pub reliable : Host → Host
reliable host = with_writes host (λ sent socket m. true)

-- `sent` holds the packets written to each socket, in order; `draws` counts the draws.
pub record Server (Db : Type 0) : Type 0 where
  pub db : Db
  pub whiteboard_sessions : Sessions
  pub sent : List (ℕ × PacketMessage)
  pub draws : ℕ

-- A new server, on the database as it is.
abbrev pub fresh_server : {Db : Type 0} → Db → Server Db
fresh_server db = record { db = db; whiteboard_sessions = []; sent = []; draws = 0 }

-- The packets written to a socket.
abbrev pub for_socket : ℕ → List (ℕ × PacketMessage) → List PacketMessage
for_socket socket [] = []
for_socket socket ((k, m) ∷ sent) =
    if k == socket then m ∷ for_socket socket sent else for_socket socket sent

-- The member `version`.
abbrev pub version : ℕ
version = 1

-- `WhiteboardPacket response(version, actionResponse, packet_id)` and `new_action_response`.
abbrev pub action_response : ℕ → Bool → String → WhiteboardPacket
action_response packet_id success message =
    new_action_response success message
      (construct version WhiteboardPacketType.action_response packet_id)

module _ {Db : Type 0} where
  -- The `try` block is around the whole call: a write that throws is printed, and lost.
  unfoldable pub send_packet : Host → ℕ → WhiteboardPacket → Action (Server Db) (Unit {0})
  send_packet host socket p s =
      if host.writes s.sent socket p.packet
      then (ok tt, record s { sent = s.sent ++ (socket, p.packet) ∷ [] })
      else (ok tt, s)

  -- A value drawn from outside.
  unfoldable pub draw : {A : Type 0} → (ℕ → A) → Action (Server Db) A
  draw f s = (ok (f s.draws), record s { draws = s.draws + 1 })

  -- An operation of the database.
  unfoldable pub query : {A : Type 0} → Action Db A → Action (Server Db) A
  query m s = let (r, db') = m s.db in (r, record s { db = db' })

  unfoldable pub lift : {A : Type 0} → Result A → Action (Server Db) A
  lift r s = (r, s)

  unfoldable pub modify_sessions : (Sessions → Sessions) → Action (Server Db) (Unit {0})
  modify_sessions f s = (ok tt, record s { whiteboard_sessions = f s.whiteboard_sessions })

  unfoldable pub shared : String → Action (Server Db) Bool
  shared whiteboard_id s = (ok (is_whiteboard_shared whiteboard_id s.whiteboard_sessions), s)

  -- A call from a state. To unfold it is to unfold the actions above.
  unfoldable pub run : {A : Type 0} → Action (Server Db) A → Server Db → Result A × Server Db
  unfolding send_packet draw query lift modify_sessions shared
  run m s = m s
