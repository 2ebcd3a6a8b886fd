-- ===== src/Client/Receive/Answers.antt =====
-- What a response of the server does to the client of src/client/client.cpp.
use xyzwhiteboard.Base.{
  ℕ, ◌+◌, ◌%◌, ◌^◌, String, Bool, true, false, some, List, [], ◌∷◌, ◌++◌, map, ◌≡◌, refl, arith, ap,
  ◌==◌, ==_refl, if◌then◌else◌, length, replicate,
}
use xyzwhiteboard.Base.Fail.{Result, ok, thrown, Action}
use xyzwhiteboard.Element.{WhiteboardElements, value}
use xyzwhiteboard.Element as Element
use xyzwhiteboard.Element.RoundTrip.{Shape, shape, empty, to_protobuf_returns}
use xyzwhiteboard.Proto.{Element as Message}
use xyzwhiteboard.Sha256.Text.{hash_string}
use xyzwhiteboard.Action.{
  PacketMessage, PacketAction, ActionResponse, action_of, get_action_response, get_broadcast,
}
use xyzwhiteboard.Packet.{
  WhiteboardPacketType, to_uint32, create_whiteboard, create_session, join_session, quit_session,
  add_element, login_request, register_request,
}
use xyzwhiteboard.Client.{
  Client, SendQueue, set_type, find_type, send_create_whiteboard_request,
  send_create_session_request, send_join_session_request, send_quit_session_request,
  send_add_element_request, send_login_request, send_register_request, write_packet,
}
use xyzwhiteboard.Client.Receive.{
  sent_type, on_response, handle_action_response, handle_broadcast, convert_element,
}

pub find_type-set_type :
    (id j : ℕ) (type : WhiteboardPacketType) (q : SendQueue)
    → find_type j (set_type id type q) ≡ (if id == j then some type else find_type j q)
unfolding find_type set_type
find_type-set_type id j type [] = refl
find_type-set_type id j type ((k, old) ∷ q) = ground (arith, find_type-set_type id j type q)

pub sent_type_lem :
    (id : ℕ) (c : Client) (type : WhiteboardPacketType)
    → find_type id c.send_queue ≡ some type
    → sent_type id c ≡ (ok type, c)
unfolding sent_type
sent_type_lem id c type found = rw (found, sent_type) refl

-- A response is handled by the type that is noted under its id.
pub matched :
    (packet : PacketMessage) (c : Client) (type : WhiteboardPacketType)
    → find_type packet.packet_id c.send_queue ≡ some type
    → handle_action_response packet c ≡ on_response type (get_action_response (action_of packet)) c
unfolding handle_action_response
matched packet c type found = rw (sent_type_lem packet.packet_id c type found) refl

pub data Request : Type 0 where
  creates_whiteboard creates_session quits_session : Request
  joins_session : String → Request
  adds_element : WhiteboardElements → Request
  logs_in registers : String → String → Request

abbrev pub type_of : Request → WhiteboardPacketType
type_of creates_whiteboard = create_whiteboard
type_of creates_session = create_session
type_of quits_session = quit_session
type_of (joins_session w) = join_session
type_of (adds_element e) = add_element
type_of (logs_in u p) = login_request
type_of (registers u p) = register_request

-- The server answers with a whiteboard's id.
abbrev pub gives_id : Request → Bool
gives_id creates_whiteboard = true
gives_id (joins_session w) = true
gives_id _ = false

module _ (write : PacketMessage → Result (Unit {0}))
    (writes : (m : PacketMessage) → write m ≡ ok tt) where
  abbrev pub send : Request → Action Client (Unit {0})
  send creates_whiteboard = send_create_whiteboard_request write
  send creates_session = send_create_session_request write
  send quits_session = send_quit_session_request write
  send (joins_session w) = send_join_session_request write w
  send (adds_element e) = send_add_element_request write e
  send (logs_in u p) = send_login_request write u p
  send (registers u p) = send_register_request write u p

  -- The id of the next packet.
  abbrev pub next_id : Client → ℕ
  next_id c = (c.packet_counter + 1) % 2 ^ 32

  pub write_packet_lem :
      (m : PacketMessage) (c : Client)
      → write_packet write m c ≡ (ok tt, record c { sent = c.sent ++ m ∷ [] })
  unfolding write_packet
  write_packet_lem m c = rw (writes m, write_packet) refl

  -- The action of a request's packet.
  abbrev pub action_for : Request → Client → PacketAction
  action_for creates_whiteboard c = PacketAction.create_whiteboard (record { user_id = c.user_id })
  action_for creates_session c =
      PacketAction.create_session (record { user_id = c.user_id; whiteboard_id = c.whiteboard_id })
  action_for quits_session c =
      PacketAction.quit_session (record { user_id = c.user_id; whiteboard_id = c.whiteboard_id })
  action_for (joins_session w) c =
      PacketAction.join_session (record { user_id = c.user_id; whiteboard_id = w })
  action_for (adds_element e) c = PacketAction.add_element (record {
    user_id = c.user_id;
    whiteboard_id = c.whiteboard_id;
    element = some (to_protobuf_returns e).0;
  })
  action_for (logs_in u p) c =
      PacketAction.login_request (record { username = u; password_hash = hash_string p })
  action_for (registers u p) c =
      PacketAction.register_request (record { username = u; password_hash = hash_string p })

  abbrev pub message : Request → Client → PacketMessage
  message request c = record {
    version = 1;
    packet_type = to_uint32 (type_of request);
    packet_id = next_id c;
    action = some (action_for request c);
  }

  -- Sending a request writes its message, notes its type under the message's id, and changes nothing
  -- else but the counter.
  pub sends :
      (request : Request) (c : Client)
      → send request c ≡ (
        ok tt,
        record c {
          packet_counter = next_id c;
          send_queue = set_type (next_id c) (type_of request) c.send_queue;
          sent = c.sent ++ message request c ∷ [];
        },
      )
  unfolding send_create_whiteboard_request send_create_session_request send_quit_session_request
      send_join_session_request send_add_element_request send_login_request send_register_request
  sends creates_whiteboard c = rw write_packet_lem refl
  sends creates_session c = rw write_packet_lem refl
  sends quits_session c = rw write_packet_lem refl
  sends (joins_session w) c = rw write_packet_lem refl
  sends (adds_element e) c = rw ((to_protobuf_returns e).1) (rw write_packet_lem refl)
  sends (logs_in u p) c = rw write_packet_lem refl
  sends (registers u p) c = rw write_packet_lem refl

  pub noted :
      (request : Request) (c : Client)
      → find_type (next_id c) (send request c).1.send_queue ≡ some (type_of request)
  noted request c = rw (sends request c) (rw (find_type-set_type, ==_refl (next_id c)) refl)

  answers :
      (request : Request) (c : Client) (packet : PacketMessage)
      → packet.packet_id ≡ next_id c
      → handle_action_response packet (send request c).1
        ≡ on_response (type_of request) (get_action_response (action_of packet)) (send request c).1
  answers request c packet same = matched packet _ _ (rw same (noted request c))

  -- The outcome that the answer to a request should have.
  abbrev pub Answered : Request → ActionResponse → Client → Result (Unit {0}) × Client → Type 0
  Answered request response c r =
      (response.success ≡ true
        → r ≡ (
          ok tt,
          (if gives_id request then record c { whiteboard_id = response.message } else c),
        ))
      × (response.success ≡ false → (r.1 ≡ c) × ((what : String) × (r.0 ≡ thrown what)))

  on_response-Answered :
      (request : Request) (response : ActionResponse) (c : Client)
      → Answered request response c (on_response (type_of request) response c)
  unfolding on_response
  on_response-Answered creates_whiteboard response c = (λ h. rw h refl, λ h. rw h (refl, (_, refl)))
  on_response-Answered creates_session response c = (λ h. rw h refl, λ h. rw h (refl, (_, refl)))
  on_response-Answered quits_session response c = (λ h. rw h refl, λ h. rw h (refl, (_, refl)))
  on_response-Answered (joins_session w) response c = (λ h. rw h refl, λ h. rw h (refl, (_, refl)))
  on_response-Answered (adds_element e) response c = (λ h. rw h refl, λ h. rw h (refl, (_, refl)))
  on_response-Answered (logs_in u p) response c = (λ h. rw h refl, λ h. rw h (refl, (_, refl)))
  on_response-Answered (registers u p) response c = (λ h. rw h refl, λ h. rw h (refl, (_, refl)))

  -- Where every write succeeds: a response that has the id of the request just sent is taken as its
  -- answer. A success sets the whiteboard's id if the request was to create or to join one, and
  -- otherwise changes nothing; a failure throws and changes nothing.
  pub request-Answered :
      (request : Request) (c : Client) (packet : PacketMessage)
      → packet.packet_id ≡ next_id c
      → Answered request
          (get_action_response (action_of packet))
          (send request c).1
          (handle_action_response packet (send request c).1)
  request-Answered request c packet same =
      rw (answers request c packet same)
        (on_response-Answered request (get_action_response (action_of packet)) (send request c).1)

-- Whatever elements a broadcast carries, the client makes as many empty ones of them.
pub handle_broadcast-empty :
    (i : Element.Indeterminate) (packet : PacketMessage)
    → map shape (handle_broadcast i packet)
      ≡ replicate (length (get_broadcast (action_of packet)).elements) empty
unfolding handle_broadcast
handle_broadcast-empty i packet = all_empty (get_broadcast (action_of packet)).elements
  where
    all_empty :
        (es : List Message) → map shape (map (convert_element i) es) ≡ replicate (length es) empty
    all_empty [] = refl
    all_empty (e ∷ es) = ap (λ (xs : List Shape). empty ∷ xs) (all_empty es)
