-- ===== src/Exchange/Steps.antt =====
-- One exchange from the lemmas of the two sides.
use xyzwhiteboard.Base.{ℕ, String, true, some, List, [], ◌∷◌, ◌++◌, ◌≡◌, refl, length, drop}
use xyzwhiteboard.Base.Fail.{ok, Action}
use xyzwhiteboard.Element as Element
use xyzwhiteboard.Action.{PacketMessage}
use xyzwhiteboard.Packet.{WhiteboardPacket, WhiteboardPacketType, Indeterminate, of_message_swap}
use xyzwhiteboard.Packet.Build.{new_broadcast, new_action_response, new_temp_id_response}
use xyzwhiteboard.Server.Mongo.{Mongo, WhiteboardDoc}
use xyzwhiteboard.Server.State.{reliable, Server, Host, action_response}
use xyzwhiteboard.Server.Connection as Connection
use xyzwhiteboard.Server.Elements.{elements_packet}
use xyzwhiteboard.Client.{Client, find_type}
use xyzwhiteboard.Client.Receive as Receive
use xyzwhiteboard.Client.Receive.{on_response}
use xyzwhiteboard.Client.Receive.Answers.{sent_type_lem}
use xyzwhiteboard.Server.State.{for_socket}
use xyzwhiteboard.Exchange.{handle_all, receive_all, exchange}

pub drop-append : {A : Type 0} (xs ys : List A) → drop (length xs) (xs ++ ys) ≡ ys
drop-append [] ys = refl
drop-append (x ∷ xs) ys = drop-append xs ys

module _ (M : Mongo) (host : Host) (e : Element.Indeterminate) (i : Indeterminate) where
  -- What the client queues of a packet.
  abbrev pub queued : PacketMessage → WhiteboardPacket
  queued m = (of_message_swap i m).0

  -- One request, and what the server writes for it.
  pub exchange-one :
      (send : Action Client (Unit {0})) (socket : ℕ) (c : Client) (s : Server M.Db)
      (request : PacketMessage) (written : List (ℕ × PacketMessage))
      → (send c).1.sent ≡ c.sent ++ request ∷ []
      → (Connection.handle_packet M (reliable host) request socket s).1.sent ≡ s.sent ++ written
      → exchange M (reliable host) e i send socket c s ≡ (
        receive_all M (reliable host) e i (for_socket socket written) (send c).1,
        (Connection.handle_packet M (reliable host) request socket s).1,
      )
  unfolding exchange handle_all
  exchange-one send socket c s request written sends writes =
      rw (sends, drop-append c.sent (request ∷ [])) (rw (writes, drop-append s.sent written) refl)

  -- A successful answer to a request that asks for a whiteboard's id.
  pub receive-create :
      (packet_id : ℕ) (whiteboard_id : String) (c : Client)
      → find_type packet_id c.send_queue ≡ some WhiteboardPacketType.create_whiteboard
      → Receive.handle_packet e i (action_response packet_id true whiteboard_id).packet c ≡ (
        ok tt,
        record c {
          whiteboard_id = whiteboard_id;
          received_queue =
              c.received_queue ++ queued (action_response packet_id true whiteboard_id).packet ∷ [];
        },
      )
  unfolding Receive.handle_packet new_action_response
  receive-create packet_id whiteboard_id c found =
      rw (sent_type_lem packet_id c WhiteboardPacketType.create_whiteboard found) refl

  -- An announced id.
  pub receive-temp_id :
      (p : WhiteboardPacket) (user_id : ℕ) (c : Client)
      → Receive.handle_packet e i (new_temp_id_response true user_id p).packet c ≡ (
        ok tt,
        record c {
          user_id = user_id;
          received_queue =
              c.received_queue ++ queued (new_temp_id_response true user_id p).packet ∷ [];
        },
      )
  unfolding Receive.handle_packet new_temp_id_response
  receive-temp_id p user_id c = refl

  -- A successful answer to a request to join.
  pub receive-join :
      (packet_id : ℕ) (whiteboard_id : String) (c : Client)
      → find_type packet_id c.send_queue ≡ some WhiteboardPacketType.join_session
      → Receive.handle_packet e i (action_response packet_id true whiteboard_id).packet c ≡ (
        ok tt,
        record c {
          whiteboard_id = whiteboard_id;
          received_queue =
              c.received_queue ++ queued (action_response packet_id true whiteboard_id).packet ∷ [];
        },
      )
  unfolding Receive.handle_packet new_action_response
  receive-join packet_id whiteboard_id c found =
      rw (sent_type_lem packet_id c WhiteboardPacketType.join_session found) refl

  -- A whiteboard's elements.
  pub receive-elements :
      (doc : WhiteboardDoc) (packet_id : ℕ) (c : Client)
      → Receive.handle_packet e i (elements_packet M (reliable host) doc packet_id).packet c ≡ (
        ok tt,
        record c {
          received_queue =
              c.received_queue
              ++ queued (elements_packet M (reliable host) doc packet_id).packet ∷ [];
        },
      )
  unfolding Receive.handle_packet elements_packet new_broadcast
  receive-elements doc packet_id c = refl
