-- ===== src/Server/Elements.antt =====
-- src/server/server.cpp: handle_broadcast, handle_unicast, handle_add_element_request and
-- handle_modify_element_request; from server.hpp user_in_active_user_ids.
use xyzwhiteboard.Base.{
  ℕ, String, Bool, true, false, Option, none, some, List, [], ◌∷◌, map, ◌==◌, ◌||◌, ◌&&◌, str_eq,
  if◌then◌else◌, contains,
}
pub mod Modify
pub mod Keeps
pub mod Acts
pub mod Broadcast
pub mod Add
use xyzwhiteboard.Base.Fail.{Result, ok, thrown, Action, ◌>>=◌, ◌>>◌, pure, gets, continue, when}
use xyzwhiteboard.Proto.{Element}
use xyzwhiteboard.Action.{
  PacketMessage, action_of, get_add_element, get_modify_element, element_or_default,
}
use xyzwhiteboard.Packet.{WhiteboardPacket, WhiteboardPacketType, construct}
use xyzwhiteboard.Packet.Build.{new_broadcast}
use xyzwhiteboard.Server.Mongo.{Mongo, WhiteboardDoc, pull_elements, push_elements}
use xyzwhiteboard.Server.Sessions.{at, store}
use xyzwhiteboard.Server.State.{
  Server, Host, version, action_response, send_packet, draw, query, lift, shared, modify_sessions,
}

-- `field && user_in_active_user_ids(doc, user_id)`
abbrev pub is_active : WhiteboardDoc → ℕ → Bool
is_active doc user_id = elim doc.active_user_ids [ none ↦ false | some ids ↦ contains user_id ids ]

-- `uid_field && uid_field == user_id`
abbrev pub is_owner : WhiteboardDoc → ℕ → Bool
is_owner doc user_id = elim doc.uid [ none ↦ false | some uid ↦ uid == user_id ]

-- The user is active in the session or owns the whiteboard.
abbrev pub may_add : WhiteboardDoc → ℕ → Bool
may_add doc user_id = is_active doc user_id || is_owner doc user_id

-- The search for the original element in the stored array.
unfoldable pub stores_element : String → List String → Bool
stores_element e [] = false
stores_element e (x ∷ xs) = str_eq x e || stores_element e xs

module _ (M : Mongo) (host : Host) where
  -- The loop that parses the stored elements; a document without the field has none.
  unfoldable pub stored_elements : WhiteboardDoc → List Element
  stored_elements doc = elim doc.elements [
    | none ↦ []
    | some elements ↦ map host.parse_element elements
  ]

  unfoldable pub elements_packet : WhiteboardDoc → ℕ → WhiteboardPacket
  unfolding stored_elements
  elements_packet doc packet_id =
      new_broadcast (stored_elements doc)
        (construct version WhiteboardPacketType.broadcast packet_id)

  send_all : List ℕ → WhiteboardPacket → Action (Server M.Db) (Unit {0})
  send_all [] p = pure tt
  send_all (socket ∷ sockets) p = do send_packet host socket p; send_all sockets p

  broadcast_on : String → Option WhiteboardDoc → Action (Server M.Db) (Unit {0})
  unfolding send_all elements_packet store
  broadcast_on whiteboard_id none = pure tt
  broadcast_on whiteboard_id (some doc) = do
    packet_id ← draw host.rand
    sockets ← gets (λ s. at whiteboard_id s.whiteboard_sessions)
    modify_sessions (store whiteboard_id sockets)
    send_all sockets (elements_packet doc packet_id)

  fetch : String → Action (Server M.Db) (Option WhiteboardDoc)
  fetch whiteboard_id = do oid ← lift (M.read_oid whiteboard_id); query (M.find_whiteboard oid)

  unfoldable pub handle_broadcast : String → Action (Server M.Db) (Unit {0})
  unfolding broadcast_on fetch
  handle_broadcast whiteboard_id = do
    is_shared ← shared whiteboard_id
    when is_shared (do result ← fetch whiteboard_id; broadcast_on whiteboard_id result)

  unicast_on : ℕ → Option WhiteboardDoc → Action (Server M.Db) (Unit {0})
  unfolding elements_packet
  unicast_on socket none = pure tt
  unicast_on socket (some doc) = do
    packet_id ← draw host.rand
    send_packet host socket (elements_packet doc packet_id)

  unfoldable pub handle_unicast : String → ℕ → Action (Server M.Db) (Unit {0})
  unfolding unicast_on fetch
  handle_unicast whiteboard_id socket = do
    is_shared ← shared whiteboard_id
    when is_shared (do result ← fetch whiteboard_id; unicast_on socket result)

  add_element_on :
      ℕ → ℕ → String → M.Oid → ℕ → String → Option WhiteboardDoc → Action (Server M.Db) (Unit {0})
  unfolding contains
  add_element_on socket packet_id whiteboard_id oid user_id element none = send_packet host socket (
      action_response packet_id false
        "User is not authorized to add element or whiteboard not found")
  add_element_on socket packet_id whiteboard_id oid user_id element (some doc) = do
    when (may_add doc user_id) (do
      query (M.update_whiteboard oid (push_elements element ∷ []))
      send_packet host socket (action_response packet_id true "Element added successfully"))
    is_shared ← shared whiteboard_id
    when is_shared (handle_broadcast whiteboard_id)

  unfoldable pub handle_add_element_request : PacketMessage → ℕ → Action (Server M.Db) (Unit {0})
  unfolding add_element_on
  handle_add_element_request packet socket = do
    let request = get_add_element (action_of packet)
    oid ← lift (M.read_oid request.whiteboard_id)
    result ← query (M.find_whiteboard oid)
    add_element_on socket packet.packet_id request.whiteboard_id oid request.user_id
        (host.serialize_element (element_or_default request.element)) result

  replace_element :
      ℕ → ℕ → String → M.Oid → String → String → Bool → Action (Server M.Db) (Unit {0})
  replace_element socket packet_id whiteboard_id oid orig modi false =
      send_packet host socket
        (action_response packet_id false "Original element is not in the database")
  replace_element socket packet_id whiteboard_id oid orig modi true = do
    query (M.update_whiteboard oid (pull_elements orig ∷ push_elements modi ∷ []))
    send_packet host socket (action_response packet_id true "Element modified successfully")
    is_shared ← shared whiteboard_id
    when is_shared (handle_broadcast whiteboard_id)

  modify_element_on :
      ℕ
      → ℕ
      → String
      → M.Oid
      → ℕ
      → String
      → String
      → Option WhiteboardDoc
      → Action (Server M.Db) (Unit {0})
  unfolding replace_element stores_element contains
  modify_element_on socket packet_id whiteboard_id oid user_id orig modi none =
      send_packet host socket (
        action_response packet_id false
          "User is not authorized to modify element or whiteboard not found")
  modify_element_on socket packet_id whiteboard_id oid user_id orig modi (some doc) =
      if is_active doc user_id
      then elim doc.elements [
        | none ↦ pure tt
        | some elements ↦
            replace_element socket packet_id whiteboard_id oid orig modi
              (stores_element orig elements)
      ]
      else pure tt

  unfoldable pub handle_modify_element_request : PacketMessage → ℕ → Action (Server M.Db) (Unit {0})
  unfolding modify_element_on
  handle_modify_element_request packet socket = do
    let request = get_modify_element (action_of packet)
    oid ← lift (M.read_oid request.whiteboard_id)
    result ← query (M.find_whiteboard oid)
    modify_element_on socket packet.packet_id request.whiteboard_id oid request.user_id
        (host.serialize_element (element_or_default request.orig_element))
        (host.serialize_element (element_or_default request.modi_element)) result
