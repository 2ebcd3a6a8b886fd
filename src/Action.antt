-- ===== src/Action.antt =====
-- proto/action.proto and proto/packet.proto: the requests, the responses and the packet around them.
-- A getter of the oneof `action_type` returns the default message where another member is set.
use xyzwhiteboard.Base.{ℕ, String, Bool, false, Option, none, some, List, []}
use xyzwhiteboard.Proto.{Element, element_type_not_set}

pub record CreateWhiteBoardRequest : Type 0 where
  pub user_id : ℕ

pub record CreateSessionRequest : Type 0 where
  pub user_id : ℕ
  pub whiteboard_id : String

pub record JoinSessionRequest : Type 0 where
  pub user_id : ℕ
  pub whiteboard_id : String

pub record QuitSessionRequest : Type 0 where
  pub user_id : ℕ
  pub whiteboard_id : String

pub record AddElementRequest : Type 0 where
  pub user_id : ℕ
  pub whiteboard_id : String
  pub element : Option Element

pub record ModifyElementRequest : Type 0 where
  pub user_id : ℕ
  pub whiteboard_id : String
  pub orig_element : Option Element
  pub modi_element : Option Element

pub record DeleteElementRequest : Type 0 where
  pub user_id : ℕ
  pub whiteboard_id : String
  pub orig_element : Option Element

pub record SaveWhiteboardRequest : Type 0 where
  pub session_id : ℕ
  pub file_format : String
  pub file_path : String

pub record ActionResponse : Type 0 where
  pub success : Bool
  pub message : String

pub record BroadCast : Type 0 where
  pub elements : List Element

pub record TempIdResponse : Type 0 where
  pub success : Bool
  pub user_id : ℕ

pub record RegisterRequest : Type 0 where
  pub username : String
  pub password_hash : String

pub record LoginRequest : Type 0 where
  pub username : String
  pub password_hash : String

pub data PacketAction : Type 0 where
  action_type_not_set : PacketAction
  create_whiteboard : CreateWhiteBoardRequest → PacketAction
  create_session : CreateSessionRequest → PacketAction
  join_session : JoinSessionRequest → PacketAction
  quit_session : QuitSessionRequest → PacketAction
  add_element : AddElementRequest → PacketAction
  modify_element : ModifyElementRequest → PacketAction
  delete_element : DeleteElementRequest → PacketAction
  save_whiteboard : SaveWhiteboardRequest → PacketAction
  register_request : RegisterRequest → PacketAction
  login_request : LoginRequest → PacketAction
  action_response : ActionResponse → PacketAction
  broadcast : BroadCast → PacketAction
  temp_id_response : TempIdResponse → PacketAction

-- The message whiteboardPacket.
pub record PacketMessage : Type 0 where
  pub version : ℕ
  pub packet_type : ℕ
  pub packet_id : ℕ
  pub action : Option PacketAction

abbrev pub empty_message : PacketMessage
empty_message = record { version = 0; packet_type = 0; packet_id = 0; action = none }

-- `packet.action()`
abbrev pub action_of : PacketMessage → PacketAction
action_of p = elim p.action [ none ↦ action_type_not_set | some a ↦ a ]

-- The getter of a field of type `Element`.
abbrev pub element_or_default : Option Element → Element
element_or_default none = element_type_not_set
element_or_default (some e) = e

abbrev pub get_create_whiteboard : PacketAction → CreateWhiteBoardRequest
get_create_whiteboard (create_whiteboard r) = r
get_create_whiteboard _ = record { user_id = 0 }

abbrev pub get_create_session : PacketAction → CreateSessionRequest
get_create_session (create_session r) = r
get_create_session _ = record { user_id = 0; whiteboard_id = "" }

abbrev pub get_join_session : PacketAction → JoinSessionRequest
get_join_session (join_session r) = r
get_join_session _ = record { user_id = 0; whiteboard_id = "" }

abbrev pub get_quit_session : PacketAction → QuitSessionRequest
get_quit_session (quit_session r) = r
get_quit_session _ = record { user_id = 0; whiteboard_id = "" }

abbrev pub get_add_element : PacketAction → AddElementRequest
get_add_element (add_element r) = r
get_add_element _ = record { user_id = 0; whiteboard_id = ""; element = none }

abbrev pub get_modify_element : PacketAction → ModifyElementRequest
get_modify_element (modify_element r) = r
get_modify_element _ = record {
  user_id = 0;
  whiteboard_id = "";
  orig_element = none;
  modi_element = none;
}

abbrev pub get_register_request : PacketAction → RegisterRequest
get_register_request (register_request r) = r
get_register_request _ = record { username = ""; password_hash = "" }

abbrev pub get_login_request : PacketAction → LoginRequest
get_login_request (login_request r) = r
get_login_request _ = record { username = ""; password_hash = "" }

abbrev pub get_action_response : PacketAction → ActionResponse
get_action_response (action_response r) = r
get_action_response _ = record { success = false; message = "" }

abbrev pub get_broadcast : PacketAction → BroadCast
get_broadcast (broadcast r) = r
get_broadcast _ = record { elements = [] }

abbrev pub get_temp_id_response : PacketAction → TempIdResponse
get_temp_id_response (temp_id_response r) = r
get_temp_id_response _ = record { success = false; user_id = 0 }
