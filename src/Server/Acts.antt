-- ===== src/Server/Acts.antt =====
-- What the handlers of src/server/server.cpp do to the state that the threads share, act by act: a call of the
-- database, a draw, a packet sent, a change of the table. Between two acts of one handler, the
-- handlers of other connections can do theirs.
pub mod Handlers
use xyzwhiteboard.Base.{ℕ, ◌+◌, String, List, true, ◌≡◌}
use xyzwhiteboard.Action.{PacketMessage}
use xyzwhiteboard.Packet.{WhiteboardPacket}
use xyzwhiteboard.Server.Mongo.{Mongo, WhiteboardDoc, UserDoc, Operator}
use xyzwhiteboard.Server.Sessions.{
  Sessions, at, store, add_socket_to_whiteboard, remove_socket_from_whiteboard,
}
use xyzwhiteboard.Server.Sessions.Laws.{connected}
use xyzwhiteboard.Server.State.{Server, Host, send_packet, query}
use xyzwhiteboard.Server.Elements.{elements_packet}
use xyzwhiteboard.Server.Stable.{Reply}

module _ {Db : Type 0} where
  abbrev pub with_sessions : Server Db → Sessions → Server Db
  with_sessions s m = record s { whiteboard_sessions = m }

-- The acts of a handler for a packet on a socket. A broadcast goes through the set of the session as
-- it is in the table: each socket that it sends to is in the set at that time.
pub data Act (M : Mongo) (host : Host) (socket : ℕ) (packet : PacketMessage) (s : Server M.Db)
    : Server M.Db → Type 0 where
  finds : (o : M.Oid) → Act M host socket packet s (query (M.find_whiteboard o) s).1
  inserts : (d : WhiteboardDoc) → Act M host socket packet s (query (M.insert_whiteboard d) s).1
  updates :
      (o : M.Oid) (ops : List Operator)
      → Act M host socket packet s (query (M.update_whiteboard o ops) s).1
  deletes : (o : M.Oid) → Act M host socket packet s (query (M.delete_whiteboard o) s).1
  finds_user : (name : String) → Act M host socket packet s (query (M.find_user name) s).1
  inserts_user : (u : UserDoc) → Act M host socket packet s (query (M.insert_user u) s).1
  counts : Act M host socket packet s (query M.next_sequence s).1
  draws : Act M host socket packet s (record s { draws = s.draws + 1 })
  replies :
      (p : WhiteboardPacket)
      → Reply M host packet.packet_id p
      → Act M host socket packet s (send_packet host socket p s).1
  connects :
      (k : String)
      → Act M host socket packet s
          (with_sessions s (add_socket_to_whiteboard k socket s.whiteboard_sessions))
  disconnects :
      (k : String)
      → Act M host socket packet s
          (with_sessions s (remove_socket_from_whiteboard k socket s.whiteboard_sessions))
  -- whiteboard_sessions[k]
  opens :
      (k : String)
      → Act M host socket packet s
          (with_sessions s (store k (at k s.whiteboard_sessions) s.whiteboard_sessions))
  tells :
      (k : String) (other : ℕ) (doc : WhiteboardDoc) (id : ℕ)
      → connected k other s.whiteboard_sessions ≡ true
      → Act M host socket packet s (send_packet host other (elements_packet M host doc id) s).1

pub data Acts (M : Mongo) (host : Host) (socket : ℕ) (packet : PacketMessage) (s : Server M.Db)
    : Server M.Db → Type 0 where
  no_more : Acts M host socket packet s s
  next :
      {t u : Server M.Db}
      → Acts M host socket packet s t
      → Act M host socket packet t u
      → Acts M host socket packet s u
