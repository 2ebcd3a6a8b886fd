-- ===== src/Packet/Laws.antt =====
-- What a receiver reads from a packet that a builder made.
use xyzwhiteboard.Base.{ℕ, String, Bool, some, List, ◌≡◌, ◌≢◌, refl, arith}
use xyzwhiteboard.Proto.{Element}
use xyzwhiteboard.Element.{WhiteboardElements, value}
use xyzwhiteboard.Element.Convert.{to_protobuf}
use xyzwhiteboard.Action.{action_of, PacketMessage, PacketAction, empty_message}
use xyzwhiteboard.Packet.{
  WhiteboardPacket, WhiteboardPacketType, other, to_uint32, of_uint32, Indeterminate, of_message,
  of_message_swap, new_packet, get_packet_type_name, create_whiteboard, create_session,
  join_session, quit_session, add_element, modify_element, delete_element, register_request,
  login_request, action_response, broadcast, temp_id_response,
}
use xyzwhiteboard.Packet.Build.{
  new_create_whiteboard_request, new_create_session_request, new_join_session_request,
  new_quit_session_request, new_add_element_request, new_modify_element_request,
  new_delete_element_request, new_login_request, new_register_request, new_temp_id_response,
  new_action_response, new_broadcast,
}

of_uint32-to_uint32 :
    (t : WhiteboardPacketType) → ((k : ℕ) → t ≢ other k) → of_uint32 (to_uint32 t) ≡ t
unfolding of_uint32
of_uint32-to_uint32 (other n) h = absurd (h n refl)
of_uint32-to_uint32 create_whiteboard h = refl
of_uint32-to_uint32 _ h = refl

-- Casting a number to the packet type and back gives the number, and the thirteen enumerators
-- survive the cast to their numbers and back.
pub to_uint32-of_uint32 :
    (n : ℕ) (t : WhiteboardPacketType)
    → (to_uint32 (of_uint32 n) ≡ n) × (((k : ℕ) → t ≢ other k) → of_uint32 (to_uint32 t) ≡ t)
unfolding of_uint32
to_uint32-of_uint32 n t = (ground arith, of_uint32-to_uint32 t)

-- What a receiver finds in a packet: the sender's version and id, the type and the action.
pub record Carries (p : WhiteboardPacket) (t : WhiteboardPacketType) (a : PacketAction)
    (q : WhiteboardPacket) : Type 0 where
  pub version : q.packet.version ≡ p.version
  pub packet_id : q.packet.packet_id ≡ p.packet_id
  pub packet_type : of_uint32 q.packet.packet_type ≡ t
  pub action : action_of q.packet ≡ a

-- The packet of each builder of the client's requests that needs no element carries the builder's
-- type and arguments, and the version and id that the packet was constructed with.
pub request_builders-Carries :
    (p : WhiteboardPacket) (user_id : ℕ) (s t : String)
    → Carries p create_whiteboard
        (PacketAction.create_whiteboard (record { user_id = user_id }))
        (new_create_whiteboard_request user_id p)
      × Carries p create_session
          (PacketAction.create_session (record { user_id = user_id; whiteboard_id = s }))
          (new_create_session_request user_id s p)
      × Carries p join_session
          (PacketAction.join_session (record { user_id = user_id; whiteboard_id = s }))
          (new_join_session_request user_id s p)
      × Carries p quit_session
          (PacketAction.quit_session (record { user_id = user_id; whiteboard_id = s }))
          (new_quit_session_request user_id s p)
      × Carries p login_request
          (PacketAction.login_request (record { username = s; password_hash = t }))
          (new_login_request s t p)
      × Carries p register_request
          (PacketAction.register_request (record { username = s; password_hash = t }))
          (new_register_request s t p)
unfolding of_uint32 new_create_whiteboard_request new_create_session_request
    new_join_session_request new_quit_session_request new_login_request new_register_request
request_builders-Carries p user_id s t = (
  record { version = refl; packet_id = refl; packet_type = refl; action = refl },
  record { version = refl; packet_id = refl; packet_type = refl; action = refl },
  record { version = refl; packet_id = refl; packet_type = refl; action = refl },
  record { version = refl; packet_id = refl; packet_type = refl; action = refl },
  record { version = refl; packet_id = refl; packet_type = refl; action = refl },
  record { version = refl; packet_id = refl; packet_type = refl; action = refl },
)

-- The packet of each builder of the server's responses carries the builder's type and arguments, and
-- the version and id that the packet was constructed with.
pub response_builders-Carries :
    (p : WhiteboardPacket) (success : Bool) (user_id : ℕ) (s : String) (es : List Element)
    → Carries p action_response
        (PacketAction.action_response (record { success = success; message = s }))
        (new_action_response success s p)
      × Carries p temp_id_response
          (PacketAction.temp_id_response (record { success = success; user_id = user_id }))
          (new_temp_id_response success user_id p)
      × Carries p broadcast (PacketAction.broadcast (record { elements = es })) (new_broadcast es p)
unfolding of_uint32 new_action_response new_temp_id_response new_broadcast
response_builders-Carries p success user_id s es = (
  record { version = refl; packet_id = refl; packet_type = refl; action = refl },
  record { version = refl; packet_id = refl; packet_type = refl; action = refl },
  record { version = refl; packet_id = refl; packet_type = refl; action = refl },
)

-- The builders that convert elements return, and their packets carry the converted elements.
element_builders-Carries :
    (p : WhiteboardPacket) (user_id : ℕ) (s : String) (e f : WhiteboardElements) (m n : Element)
    → to_protobuf e ≡ value m
    → to_protobuf f ≡ value n
    → ((q : WhiteboardPacket) × (new_add_element_request user_id s e p ≡ value q)
        × Carries p add_element
            (PacketAction.add_element
              (record { user_id = user_id; whiteboard_id = s; element = some m }))
            q)
      × ((q : WhiteboardPacket) × (new_modify_element_request user_id s e f p ≡ value q)
          × Carries p modify_element
              (PacketAction.modify_element (record {
                user_id = user_id;
                whiteboard_id = s;
                orig_element = some m;
                modi_element = some n;
              }))
              q)
      × ((q : WhiteboardPacket) × (new_delete_element_request user_id s e p ≡ value q)
          × Carries p delete_element
              (PacketAction.delete_element
                (record { user_id = user_id; whiteboard_id = s; orig_element = some m }))
              q)
unfolding of_uint32 new_add_element_request new_modify_element_request new_delete_element_request
element_builders-Carries p user_id s e f m n h k = (
  (
    new_packet
        (PacketAction.add_element
          (record { user_id = user_id; whiteboard_id = s; element = some m }))
        p,
    rw h refl,
    record { version = refl; packet_id = refl; packet_type = refl; action = refl },
  ),
  (
    new_packet
        (PacketAction.modify_element (record {
          user_id = user_id;
          whiteboard_id = s;
          orig_element = some m;
          modi_element = some n;
        }))
        p,
    rw (h, k) refl,
    record { version = refl; packet_id = refl; packet_type = refl; action = refl },
  ),
  (
    new_packet
        (PacketAction.delete_element
          (record { user_id = user_id; whiteboard_id = s; orig_element = some m }))
        p,
    rw h refl,
    record { version = refl; packet_id = refl; packet_type = refl; action = refl },
  ),
)

-- A packet object made from a message keeps the message's action, version and number of the type,
-- but its own type is the value 0, which no enumerator has, and the message's id is overwritten by
-- the object's uninitialised one; the overload that swaps leaves the argument empty.
of_message_forgets :
    (i : Indeterminate) (m : PacketMessage)
    → ((of_message i m).type ≡ other 0)
      × ((of_message i m).packet ≡ record m { packet_id = i.packet_id })
      × (of_message_swap i m ≡ (of_message i m, empty_message))
      × (get_packet_type_name (of_message i m) ≡ some "")
unfolding of_message of_message_swap get_packet_type_name of_uint32
of_message_forgets i m = (refl, refl, refl, refl)
