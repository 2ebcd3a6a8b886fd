-- ===== src/Server/Boards.antt =====
-- src/server/server.cpp: handle_create_whiteboard_request, handle_create_session_request,
-- handle_join_session_request and handle_quit_session_request.
pub mod Keeps
pub mod Create
pub mod Session
use xyzwhiteboard.Base.{
  ℕ, String, Bool, true, false, Option, none, some, List, [], ◌∷◌, ◌==◌, if◌then◌else◌,
}
use xyzwhiteboard.Base.Fail.{Result, ok, thrown, Action, ◌>>=◌, ◌>>◌, pure, gets, continue, when}
use xyzwhiteboard.Action.{
  PacketMessage, action_of, get_create_whiteboard, get_create_session, get_join_session,
  get_quit_session,
}
use xyzwhiteboard.Packet.{WhiteboardPacket}
use xyzwhiteboard.Server.Mongo.{
  Mongo, WhiteboardDoc, set_active_user_ids, add_to_set_active_user_ids, pull_active_user_ids,
}
use xyzwhiteboard.Server.Sessions.{add_socket_to_whiteboard, remove_socket_from_whiteboard}
use xyzwhiteboard.Server.State.{
  Server, Host, action_response, send_packet, draw, query, lift, shared, modify_sessions,
}
use xyzwhiteboard.Server.Users.{handle_assign_user_id}
use xyzwhiteboard.Server.Elements.{is_owner, handle_unicast}

-- There is no active user left in the session.
abbrev pub is_deserted : WhiteboardDoc → Bool
is_deserted doc = elim doc.active_user_ids [
  | none ↦ false
  | some ids ↦ elim ids [ [] ↦ true | _ ∷ _ ↦ false ]
]

module _ (M : Mongo) (host : Host) where
  -- An anonymous user is given an id first.
  user_or_assigned : ℕ → ℕ → Action (Server M.Db) ℕ
  unfolding handle_assign_user_id
  user_or_assigned user_id socket =
      if user_id == 0 then handle_assign_user_id M host socket else pure user_id

  created_reply : ℕ → Option M.Oid → WhiteboardPacket
  created_reply packet_id (some oid) = action_response packet_id true (M.oid_text oid)
  created_reply packet_id none =
      action_response packet_id false "Fail to create whiteboard document"

  unfoldable pub handle_create_whiteboard_request :
      PacketMessage → ℕ → Action (Server M.Db) (Unit {0})
  unfolding user_or_assigned created_reply
  handle_create_whiteboard_request packet socket = do
    let request = get_create_whiteboard (action_of packet)
    user_id ← user_or_assigned request.user_id socket
    created_at ← draw host.now
    result ← query (
        M.insert_whiteboard (record {
          uid = some user_id;
          elements = some [];
          created_at = created_at;
          active_user_ids = none;
        }))
    send_packet host socket (created_reply packet.packet_id result)

  create_session_on :
      ℕ → ℕ → String → M.Oid → ℕ → Option WhiteboardDoc → Action (Server M.Db) (Unit {0})
  unfolding add_socket_to_whiteboard
  create_session_on socket packet_id whiteboard_id oid user_id none =
      send_packet host socket (action_response packet_id false "Whiteboard not found")
  create_session_on socket packet_id whiteboard_id oid user_id (some doc) =
      if is_owner doc user_id
      then (do
        modify_sessions (add_socket_to_whiteboard whiteboard_id socket)
        query (M.update_whiteboard oid (set_active_user_ids (user_id ∷ []) ∷ []))
        send_packet host socket (action_response packet_id true "Session created successfully"))
      else send_packet host socket (action_response packet_id false "User ID does not match")

  unfoldable pub handle_create_session_request : PacketMessage → ℕ → Action (Server M.Db) (Unit {0})
  unfolding create_session_on
  handle_create_session_request packet socket = do
    let request = get_create_session (action_of packet)
    oid ← lift (M.read_oid request.whiteboard_id)
    result ← query (M.find_whiteboard oid)
    create_session_on socket packet.packet_id request.whiteboard_id oid request.user_id result

  join_shared : ℕ → ℕ → String → M.Oid → ℕ → Action (Server M.Db) (Unit {0})
  unfolding add_socket_to_whiteboard handle_unicast
  join_shared socket packet_id whiteboard_id oid user_id = do
    modify_sessions (add_socket_to_whiteboard whiteboard_id socket)
    query (M.update_whiteboard oid (add_to_set_active_user_ids user_id ∷ []))
    is_shared ← shared whiteboard_id
    when is_shared (handle_unicast M host whiteboard_id socket)
    send_packet host socket (action_response packet_id true whiteboard_id)

  join_session_on :
      ℕ → ℕ → String → M.Oid → ℕ → Option WhiteboardDoc → Action (Server M.Db) (Unit {0})
  unfolding join_shared
  join_session_on socket packet_id whiteboard_id oid user_id none =
      send_packet host socket (action_response packet_id false "Whiteboard not found")
  join_session_on socket packet_id whiteboard_id oid user_id (some doc) = elim doc.active_user_ids [
    | none ↦
        send_packet host socket
          (action_response packet_id false "Whiteboard is not in shared status")
    | some ids ↦ join_shared socket packet_id whiteboard_id oid user_id
  ]

  unfoldable pub handle_join_session_request : PacketMessage → ℕ → Action (Server M.Db) (Unit {0})
  unfolding user_or_assigned join_session_on
  handle_join_session_request packet socket = do
    let request = get_join_session (action_of packet)
    user_id ← user_or_assigned request.user_id socket
    oid ← lift (M.read_oid request.whiteboard_id)
    result ← query (M.find_whiteboard oid)
    join_session_on socket packet.packet_id request.whiteboard_id oid user_id result

  -- The check after the update: the document goes once no active user is left.
  delete_deserted : M.Oid → Option WhiteboardDoc → Action (Server M.Db) (Unit {0})
  delete_deserted oid none = pure tt
  delete_deserted oid (some doc) = when (is_deserted doc) (query (M.delete_whiteboard oid))

  unfoldable pub handle_quit_session_request : PacketMessage → ℕ → Action (Server M.Db) (Unit {0})
  unfolding remove_socket_from_whiteboard delete_deserted
  handle_quit_session_request packet socket = do
    let request = get_quit_session (action_of packet)
    modify_sessions (remove_socket_from_whiteboard request.whiteboard_id socket)
    oid ← lift (M.read_oid request.whiteboard_id)
    query (M.update_whiteboard oid (pull_active_user_ids request.user_id ∷ []))
    result ← query (M.find_whiteboard oid)
    delete_deserted oid result
    send_packet host socket (action_response packet.packet_id true "Quit session successfully")
