-- ===== src/Client/Receive.antt =====
-- src/client/client.cpp: handle_receive and the handlers of the server's packets.
pub mod Answers
pub mod Noted
use xyzwhiteboard.Base.{
  ℕ, String, Bool, true, false, Option, none, some, List, [], ◌∷◌, ◌++◌, map, if◌then◌else◌,
}
use xyzwhiteboard.Base.Fail.{Result, ok, thrown, Action, ◌>>=◌, ◌>>◌, pure, gets, throw, continue}
use xyzwhiteboard.Element.{WhiteboardElements}
use xyzwhiteboard.Element as Element
use xyzwhiteboard.Element.Convert.{from_protobuf}
use xyzwhiteboard.Proto.{Element as Message}
use xyzwhiteboard.Action.{
  PacketMessage, ActionResponse, action_of, get_action_response, get_temp_id_response,
  get_broadcast,
}
use xyzwhiteboard.Packet.{
  WhiteboardPacket, WhiteboardPacketType, other, of_uint32, Indeterminate, of_message,
  of_message_swap, create_whiteboard, create_session, join_session, quit_session, add_element,
  modify_element, delete_element, save_whiteboard, register_request, login_request,
}
use xyzwhiteboard.Wire.{Protobuf, parse_packet}
use xyzwhiteboard.Client.{Client, set_type, find_type}

-- send_queue[packet_id], which makes an entry with the value 0 where there is none.
unfoldable pub sent_type : ℕ → Action Client WhiteboardPacketType
unfolding find_type set_type
sent_type packet_id c = elim (find_type packet_id c.send_queue) [
  | none ↦ (ok (other 0), record c { send_queue = set_type packet_id (other 0) c.send_queue })
  | some type ↦ (ok type, c)
]

set_whiteboard : String → Action Client (Unit {0})
set_whiteboard whiteboard_id c = (ok tt, record c { whiteboard_id = whiteboard_id })

-- `if (!response.success()) throw ClientReceiveServerSideFail(what)`
check_success : ActionResponse → String → Action Client (Unit {0})
check_success response what = if response.success then pure tt else throw what

-- The cases of the `switch` on the type of the packet that is answered.
pub on_response : WhiteboardPacketType → ActionResponse → Action Client (Unit {0})
unfolding check_success set_whiteboard
on_response create_whiteboard response =
    if response.success
    then set_whiteboard response.message
    else throw "Server fail to create a whiteboard"
on_response create_session response = check_success response "Server fail to create a session"
on_response join_session response =
    if response.success
    then set_whiteboard response.message
    else throw "Server fail to join a session"
on_response quit_session response = check_success response "Server fail to quit a session"
on_response add_element response = check_success response "Server fail to add an element"
on_response modify_element response = check_success response "Server fail to modify an element"
on_response delete_element response = check_success response "Server fail to delete an element"
on_response save_whiteboard response = check_success response "Server help you save the whiteboard"
on_response login_request response = check_success response "Server fail to login the user"
on_response register_request response = check_success response "Server fail to register the user"
on_response _ response = pure tt

unfoldable pub handle_action_response : PacketMessage → Action Client (Unit {0})
unfolding sent_type on_response
handle_action_response packet = do
  type ← sent_type packet.packet_id
  on_response type (get_action_response (action_of packet))

unfoldable pub handle_temp_id_response : PacketMessage → Action Client (Unit {0})
handle_temp_id_response packet c =
    let response = get_temp_id_response (action_of packet) in
    if response.success
    then (ok tt, record c { user_id = response.user_id })
    else (thrown "Server fail to create user_id", c)

-- The body of the loop: from_protobuf changes nothing in `temp`, and what it returns is dropped.
pub convert_element : Element.Indeterminate → Message → WhiteboardElements
unfolding from_protobuf
convert_element i ele =
    let temp = Element.construct i in let dropped = from_protobuf i temp ele in temp

unfoldable pub handle_broadcast : Element.Indeterminate → PacketMessage → List WhiteboardElements
unfolding convert_element
handle_broadcast i packet = map (convert_element i) (get_broadcast (action_of packet)).elements

-- How read_until ends: with the bytes in the buffer, at the end of the stream, or with an error.
pub data Read : Type 0 where
  received : List ℕ → Read
  eof : Read
  failed : String → Read

-- What the constructors leave in the members that they do not initialise.
module _ (e : Element.Indeterminate) (i : Indeterminate) where
  -- The `switch` on the type of the packet. The elements of a broadcast are dropped.
  handle_by_type : WhiteboardPacketType → PacketMessage → Action Client (Unit {0})
  unfolding handle_action_response handle_temp_id_response
  handle_by_type WhiteboardPacketType.action_response packet = handle_action_response packet
  handle_by_type WhiteboardPacketType.temp_id_response packet = handle_temp_id_response packet
  handle_by_type WhiteboardPacketType.broadcast packet =
      let elements = handle_broadcast e packet in pure tt
  handle_by_type _ packet = throw "Client should not received this type of packet"

  -- received_queue.emplace(WhiteboardPacket(received_packet))
  queue_received : PacketMessage → Action Client (Unit {0})
  unfolding of_message_swap
  queue_received packet c =
      (ok tt, record c { received_queue = c.received_queue ++ (of_message_swap i packet).0 ∷ [] })

  unfoldable pub handle_packet : PacketMessage → Action Client (Unit {0})
  unfolding handle_by_type queue_received of_uint32
  handle_packet packet = do
    handle_by_type (of_uint32 packet.packet_type) packet
    queue_received packet

  abbrev is_empty : List ℕ → Bool
  is_empty [] = true
  is_empty (b ∷ bs) = false

  -- `byte` is 0 for an empty buffer.
  unfoldable pub handle_receive : Protobuf → Read → Action Client Bool
  unfolding handle_packet parse_packet
  handle_receive P eof = pure false
  handle_receive P (failed what) = throw what
  handle_receive P (received buffer) =
      if is_empty buffer then pure false else (do handle_packet (parse_packet P buffer); pure true)
