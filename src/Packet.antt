-- ===== src/Packet.antt =====
-- src/base/packet.hpp and src/base/packet.cpp: the class WhiteboardPacket. Its builders of requests
-- and responses are in `Build`.
pub mod Build
pub mod Laws
use xyzwhiteboard.Base.{
  ℕ, String, Option, none, some, List, [], ◌∷◌, ◌==◌, if◌then◌else◌, get_elem?,
}
use xyzwhiteboard.Action.{PacketAction, PacketMessage, empty_message}

-- An enum class over uint32_t holds any number: those without an enumerator are `other`.
pub data WhiteboardPacketType : Type 0 where
  create_whiteboard create_session join_session quit_session add_element : WhiteboardPacketType
  modify_element delete_element save_whiteboard register_request : WhiteboardPacketType
  login_request action_response broadcast temp_id_response : WhiteboardPacketType
  other : ℕ → WhiteboardPacketType

-- static_cast<uint32_t>
abbrev pub to_uint32 : WhiteboardPacketType → ℕ
to_uint32 WhiteboardPacketType.create_whiteboard = 1
to_uint32 WhiteboardPacketType.create_session = 2
to_uint32 WhiteboardPacketType.join_session = 3
to_uint32 WhiteboardPacketType.quit_session = 4
to_uint32 WhiteboardPacketType.add_element = 5
to_uint32 WhiteboardPacketType.modify_element = 6
to_uint32 WhiteboardPacketType.delete_element = 7
to_uint32 WhiteboardPacketType.save_whiteboard = 8
to_uint32 WhiteboardPacketType.register_request = 9
to_uint32 WhiteboardPacketType.login_request = 10
to_uint32 WhiteboardPacketType.action_response = 11
to_uint32 WhiteboardPacketType.broadcast = 12
to_uint32 WhiteboardPacketType.temp_id_response = 13
to_uint32 (other n) = n

-- static_cast<WhiteboardPacketType>
unfoldable pub of_uint32 : ℕ → WhiteboardPacketType
of_uint32 n =
    if n == 1
    then WhiteboardPacketType.create_whiteboard
    else if n == 2
    then WhiteboardPacketType.create_session
    else if n == 3
    then WhiteboardPacketType.join_session
    else if n == 4
    then WhiteboardPacketType.quit_session
    else if n == 5
    then WhiteboardPacketType.add_element
    else if n == 6
    then WhiteboardPacketType.modify_element
    else if n == 7
    then WhiteboardPacketType.delete_element
    else if n == 8
    then WhiteboardPacketType.save_whiteboard
    else if n == 9
    then WhiteboardPacketType.register_request
    else if n == 10
    then WhiteboardPacketType.login_request
    else if n == 11
    then WhiteboardPacketType.action_response
    else if n == 12
    then WhiteboardPacketType.broadcast
    else if n == 13
    then WhiteboardPacketType.temp_id_response
    else other n

pub record WhiteboardPacket : Type 0 where
  pub version : ℕ
  pub type : WhiteboardPacketType
  pub packet_id : ℕ
  pub packet : PacketMessage

-- WhiteboardPacket(_version, _type, _packet_id)
abbrev pub construct : ℕ → WhiteboardPacketType → ℕ → WhiteboardPacket
construct version type packet_id = record {
  version = version;
  type = type;
  packet_id = packet_id;
  packet = empty_message;
}

-- What the two constructors from a message find in the members that they do not initialise.
pub record Indeterminate : Type 0 where
  pub version : ℕ
  pub packet_id : ℕ

-- WhiteboardPacket(const protobuf::whiteboardPacket &): `type` is read from the new object's own,
-- still empty, message, and the message then gets the object's uninitialised packet id.
unfoldable pub of_message : Indeterminate → PacketMessage → WhiteboardPacket
unfolding of_uint32
of_message i m = record {
  version = i.version;
  type = of_uint32 empty_message.packet_type;
  packet_id = i.packet_id;
  packet = record m { packet_id = i.packet_id };
}

-- The overload for a message that may be changed swaps instead of copying: beside the object, what
-- is left in the argument.
unfoldable pub of_message_swap : Indeterminate → PacketMessage → WhiteboardPacket × PacketMessage
unfolding of_message
of_message_swap i m = (of_message i m, empty_message)

-- The `if` chain of new_packet, on the member of the oneof that is set; none leaves the type alone.
type_of_action : PacketAction → ℕ → ℕ
type_of_action (PacketAction.create_whiteboard r) n =
    to_uint32 WhiteboardPacketType.create_whiteboard
type_of_action (PacketAction.create_session r) n = to_uint32 WhiteboardPacketType.create_session
type_of_action (PacketAction.join_session r) n = to_uint32 WhiteboardPacketType.join_session
type_of_action (PacketAction.quit_session r) n = to_uint32 WhiteboardPacketType.quit_session
type_of_action (PacketAction.add_element r) n = to_uint32 WhiteboardPacketType.add_element
type_of_action (PacketAction.modify_element r) n = to_uint32 WhiteboardPacketType.modify_element
type_of_action (PacketAction.delete_element r) n = to_uint32 WhiteboardPacketType.delete_element
type_of_action (PacketAction.save_whiteboard r) n = to_uint32 WhiteboardPacketType.save_whiteboard
type_of_action (PacketAction.login_request r) n = to_uint32 WhiteboardPacketType.login_request
type_of_action (PacketAction.register_request r) n = to_uint32 WhiteboardPacketType.register_request
type_of_action (PacketAction.action_response r) n = to_uint32 WhiteboardPacketType.action_response
type_of_action (PacketAction.broadcast r) n = to_uint32 WhiteboardPacketType.broadcast
type_of_action (PacketAction.temp_id_response r) n = to_uint32 WhiteboardPacketType.temp_id_response
type_of_action PacketAction.action_type_not_set n = n

unfoldable pub new_packet : PacketAction → WhiteboardPacket → WhiteboardPacket
unfolding type_of_action
new_packet action p = record p {
  packet = record {
    version = p.version;
    packet_type = type_of_action action p.packet.packet_type;
    packet_id = p.packet_id;
    action = some action;
  };
}

abbrev pub packet_action_name : List String
packet_action_name =
    "" ∷ "CreateWhiteBoardRequest" ∷ "CreateSessionRequest" ∷ "JoinSessionRequest"
    ∷ "QuitSessionRequest" ∷ "AddElementRequest" ∷ "ModifyElementRequest" ∷ "DeleteElement"
    ∷ "SaveWhiteboardRequest" ∷ "registerRequest" ∷ "loginRequest" ∷ "ActionResponse" ∷ "BroadCast"
    ∷ "TempIDResponse" ∷ []

-- `none` is a read past the end of the table.
unfoldable pub get_packet_type_name : WhiteboardPacket → Option String
get_packet_type_name p = get_elem? packet_action_name (to_uint32 p.type)
