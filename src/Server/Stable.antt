-- ===== src/Server/Stable.antt =====
-- One walk over the handlers of src/server/server.cpp for every invariant: what the parts of the
-- handlers keep, each handler keeps, and so does the whole dispatch.
use xyzwhiteboard.Base.{refl, ℕ, String, List, Bool, true, false, if◌then◌else◌}
use xyzwhiteboard.Base.Fail.{Result}
use xyzwhiteboard.Action.{PacketMessage}
use xyzwhiteboard.Packet.{WhiteboardPacket, WhiteboardPacketType, construct}
use xyzwhiteboard.Packet.Build.{new_temp_id_response}
use xyzwhiteboard.Server.Mongo.{Mongo, WhiteboardDoc, Operator}
use xyzwhiteboard.Server.Sessions.{add_socket_to_whiteboard, remove_socket_from_whiteboard}
use xyzwhiteboard.Server.State.{
  version, action_response, Writes, with_writes, Server, Host, send_packet, draw, query, lift,
  shared, modify_sessions,
}
use xyzwhiteboard.Server.Users
use xyzwhiteboard.Server.Elements
use xyzwhiteboard.Server.Elements.{elements_packet}
use xyzwhiteboard.Server.Keeps.{Keeps}

-- The packets that a handler writes for a packet with the id.
pub data Reply (M : Mongo) (host : Host) (packet_id : ℕ) : WhiteboardPacket → Type 0 where
  responds :
      (success : Bool) (message : String)
      → Reply M host packet_id (action_response packet_id success message)
  announces :
      (success : Bool) (user_id id : ℕ)
      → Reply M host packet_id (
          new_temp_id_response success user_id
            (construct version WhiteboardPacketType.temp_id_response id))
  shows : (doc : WhiteboardDoc) (id : ℕ) → Reply M host packet_id (elements_packet M host doc id)

module _ {M : Mongo} {host : Host} {packet_id : ℕ} where
  pub Reply-if :
      (b : Bool) {p q : WhiteboardPacket}
      → Reply M host packet_id p
      → Reply M host packet_id q
      → Reply M host packet_id (if b then p else q)
  Reply-if true r r' = r
  Reply-if false r r' = r'

-- The parts that the handlers are made of, when a packet comes in on a socket, go alike.
pub record Stable (M : Mongo) (host : Host) (w : Writes) (R : Server M.Db → Server M.Db → Type 0)
    (socket : ℕ) (packet : PacketMessage) : Type 0 where
  pub sends :
      (p : WhiteboardPacket)
      → Reply M host packet.packet_id p
      → Keeps R (send_packet host socket p) (send_packet (with_writes host w) socket p)
  pub draws : (f : ℕ → ℕ) → Keeps R (draw f) (draw f)
  pub finds : (o : M.Oid) → Keeps R (query (M.find_whiteboard o)) (query (M.find_whiteboard o))
  pub inserts :
      (d : WhiteboardDoc) → Keeps R (query (M.insert_whiteboard d)) (query (M.insert_whiteboard d))
  pub updates :
      (o : M.Oid) (ops : List Operator)
      → Keeps R (query (M.update_whiteboard o ops)) (query (M.update_whiteboard o ops))
  pub deletes :
      (o : M.Oid) → Keeps R (query (M.delete_whiteboard o)) (query (M.delete_whiteboard o))
  pub finds_user : (name : String) → Keeps R (query (M.find_user name)) (query (M.find_user name))
  pub connects :
      (k : String)
      → Keeps R
          (modify_sessions (add_socket_to_whiteboard k socket))
          (modify_sessions (add_socket_to_whiteboard k socket))
  pub disconnects :
      (k : String)
      → Keeps R
          (modify_sessions (remove_socket_from_whiteboard k socket))
          (modify_sessions (remove_socket_from_whiteboard k socket))
  pub assigns :
      Keeps R
        (Users.handle_assign_user_id M host socket)
        (Users.handle_assign_user_id M (with_writes host w) socket)
  pub registers :
      Keeps R
        (Users.handle_register_request M host packet socket)
        (Users.handle_register_request M (with_writes host w) packet socket)
  pub tests : (k : String) → Keeps R (shared k) (shared k)
  pub broadcasts :
      (k : String)
      → Keeps R
          (Elements.handle_broadcast M host k)
          (Elements.handle_broadcast M (with_writes host w) k)

module _ {Db : Type 0} {R : Server Db → Server Db → Type 0} where
  pub lifts : {A : Type 0} (r : Result A) → Keeps R (lift {Db = Db} r) (lift {Db = Db} r)
  unfolding lift
  lifts r = record { after = λ s t h. (refl, h) }
