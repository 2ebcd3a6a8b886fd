-- ===== src/Packet/Build.antt =====
-- src/base/packet_client.cpp and src/base/packet_server.cpp: the builders of requests and responses.
-- Those that convert an element may throw what the conversion throws.
use xyzwhiteboard.Base.{ℕ, String, Bool, some, List}
use xyzwhiteboard.Proto.{Element}
use xyzwhiteboard.Element.{WhiteboardElements, Access, value, ◌>>=◌}
use xyzwhiteboard.Element.Convert.{to_protobuf}
use xyzwhiteboard.Action.{
  create_whiteboard, create_session, join_session, quit_session, add_element, modify_element,
  delete_element, register_request, login_request, action_response, broadcast, temp_id_response,
}
use xyzwhiteboard.Packet.{WhiteboardPacket, new_packet}

unfoldable pub new_create_whiteboard_request : ℕ → WhiteboardPacket → WhiteboardPacket
unfolding new_packet
new_create_whiteboard_request user_id =
    new_packet (create_whiteboard (record { user_id = user_id }))

unfoldable pub new_create_session_request : ℕ → String → WhiteboardPacket → WhiteboardPacket
unfolding new_packet
new_create_session_request user_id whiteboard_id =
    new_packet (create_session (record { user_id = user_id; whiteboard_id = whiteboard_id }))

unfoldable pub new_join_session_request : ℕ → String → WhiteboardPacket → WhiteboardPacket
unfolding new_packet
new_join_session_request user_id whiteboard_id =
    new_packet (join_session (record { user_id = user_id; whiteboard_id = whiteboard_id }))

unfoldable pub new_quit_session_request : ℕ → String → WhiteboardPacket → WhiteboardPacket
unfolding new_packet
new_quit_session_request user_id whiteboard_id =
    new_packet (quit_session (record { user_id = user_id; whiteboard_id = whiteboard_id }))

unfoldable pub new_add_element_request :
    ℕ → String → WhiteboardElements → WhiteboardPacket → Access WhiteboardPacket
unfolding new_packet
new_add_element_request user_id whiteboard_id element p = do
  proto_element ← to_protobuf element
  value (
      new_packet
        (add_element (record {
          user_id = user_id;
          whiteboard_id = whiteboard_id;
          element = some proto_element;
        }))
        p)

unfoldable pub new_modify_element_request :
    ℕ
    → String
    → WhiteboardElements
    → WhiteboardElements
    → WhiteboardPacket
    → Access WhiteboardPacket
unfolding new_packet
new_modify_element_request user_id whiteboard_id orig modi p = do
  orig_proto_element ← to_protobuf orig
  modi_proto_element ← to_protobuf modi
  value (
      new_packet
        (modify_element (record {
          user_id = user_id;
          whiteboard_id = whiteboard_id;
          orig_element = some orig_proto_element;
          modi_element = some modi_proto_element;
        }))
        p)

unfoldable pub new_delete_element_request :
    ℕ → String → WhiteboardElements → WhiteboardPacket → Access WhiteboardPacket
unfolding new_packet
new_delete_element_request user_id whiteboard_id element p = do
  proto_element ← to_protobuf element
  value (
      new_packet
        (delete_element (record {
          user_id = user_id;
          whiteboard_id = whiteboard_id;
          orig_element = some proto_element;
        }))
        p)

unfoldable pub new_login_request : String → String → WhiteboardPacket → WhiteboardPacket
unfolding new_packet
new_login_request username password_hash =
    new_packet (login_request (record { username = username; password_hash = password_hash }))

unfoldable pub new_register_request : String → String → WhiteboardPacket → WhiteboardPacket
unfolding new_packet
new_register_request username password_hash =
    new_packet (register_request (record { username = username; password_hash = password_hash }))

unfoldable pub new_temp_id_response : Bool → ℕ → WhiteboardPacket → WhiteboardPacket
unfolding new_packet
new_temp_id_response success user_id =
    new_packet (temp_id_response (record { success = success; user_id = user_id }))

unfoldable pub new_action_response : Bool → String → WhiteboardPacket → WhiteboardPacket
unfolding new_packet
new_action_response success message =
    new_packet (action_response (record { success = success; message = message }))

unfoldable pub new_broadcast : List Element → WhiteboardPacket → WhiteboardPacket
unfolding new_packet
new_broadcast elements = new_packet (broadcast (record { elements = elements }))
