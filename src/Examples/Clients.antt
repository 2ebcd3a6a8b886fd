-- ===== src/Examples/Clients.antt =====
-- Uses of the theorems on src/client/client.cpp, alone and with the server, at concrete clients.
use xyzwhiteboard.Base.{ℕ, true, false, none, some, [], ◌∷◌, ◌++◌, ◌≡◌, refl, arith, map}
use xyzwhiteboard.Base.{contains, with_member}
use xyzwhiteboard.Base.Fail.{Result, ok}
use xyzwhiteboard.Element as Element
use xyzwhiteboard.Element.RoundTrip.{shape, empty}
use xyzwhiteboard.Action.{PacketMessage, PacketAction}
use xyzwhiteboard.Packet.{Indeterminate}
use xyzwhiteboard.Server.State.{Server, reliable}
use xyzwhiteboard.Server.Mongo.{with_id}
use xyzwhiteboard.Server.Users.Register.{anonymous}
use xyzwhiteboard.Client.{Client}
use xyzwhiteboard.Client.Receive.{handle_action_response, handle_broadcast}
use xyzwhiteboard.Client.Receive.Answers.{
  joins_session, creates_whiteboard, send, Answered, request-Answered, handle_broadcast-empty,
}
use xyzwhiteboard.Client.Connect.{
  Actor, constructed, start, handle_connect, connects, Reach, here, later,
}
use xyzwhiteboard.Client.Connect.Endpoints.{Attempts, Reach-Attempts}
use xyzwhiteboard.Client.Connect.Timeout.{stranded, times_out}
use xyzwhiteboard.Exchange.Create.{Holds, create_exchange_anonymous}
use xyzwhiteboard.Exchange.{exchange}
use xyzwhiteboard.Exchange.Join.{join_exchange}
use xyzwhiteboard.Server.Sessions.Laws.{connected}
use xyzwhiteboard.Examples.Boards.{s, doc}
use xyzwhiteboard.Exchange.Account.{registered, logged_in, account_exchange}
use xyzwhiteboard.Examples.Memory.{Memory, memory, documented, host}
use xyzwhiteboard.Examples.Users.{one_user, one_user-Accounts}
use xyzwhiteboard.Examples.Elements.{drawn_text}
use xyzwhiteboard.Examples.Wire.{protobuf}

abbrev pub write : PacketMessage → Result (Unit {0})
write m = ok tt

pub writes : (m : PacketMessage) → write m ≡ ok tt
writes m = refl

abbrev pub fresh : ℕ → Client
fresh user_id = record {
  user_id = user_id;
  whiteboard_id = "";
  packet_counter = 0;
  send_queue = [];
  received_queue = [];
  sent = [];
}

abbrev pub stack : Indeterminate
stack = record { version = 77; packet_id = 88 }

abbrev pub element_stack : Element.Indeterminate
element_stack = record {
  pos1 = record { x = 1; y = 2 };
  pos2 = record { x = 3; y = 4 };
  pos3 = record { x = 5; y = 6 };
  side1 = 7;
}

abbrev joined : PacketMessage
joined = record {
  version = 1;
  packet_type = 11;
  packet_id = 1;
  action = some (PacketAction.action_response (record { success = true; message = "o" }));
}

request-Answered_example :
    Answered write writes
      (joins_session "o")
      (record { success = true; message = "o" })
      (send write writes (joins_session "o") (fresh 7)).1
      (handle_action_response joined (send write writes (joins_session "o") (fresh 7)).1)
request-Answered_example = request-Answered write writes (joins_session "o") (fresh 7) joined refl

create_exchange_anonymous_example :
    Holds memory documented host write writes element_stack stack 4 (fresh 0) one_user 1 1
    × (with_id 1 one_user.db.users ≡ false)
    × ((exchange memory
          (reliable host)
          element_stack
          stack
          (send write writes creates_whiteboard)
          4
          (fresh 0)
          one_user).1.db.users
        ≡ one_user.db.users ++ anonymous memory documented host 1 ∷ [])
create_exchange_anonymous_example =
    create_exchange_anonymous memory documented host write writes element_stack stack 4 (fresh 0)
      one_user one_user-Accounts refl

account_exchange_example :
    ((registered memory documented host write writes element_stack stack "ann" "pw" 4
        (fresh 0)
        one_user).0.user_id
      ≡ 1)
    × ((logged_in memory documented host write writes element_stack stack "ann" "pw" 4
          (fresh 0)
          one_user
          5
          (fresh 0)).0.user_id
        ≡ 1)
    × ((logged_in memory documented host write writes element_stack stack "ann" "pw" 4
          (fresh 0)
          one_user
          5
          (fresh 0)).1.db
        ≡ (registered memory documented host write writes element_stack stack "ann" "pw" 4
            (fresh 0)
            one_user).1.db)
account_exchange_example =
    account_exchange memory documented host write writes element_stack stack "ann" "pw" 4 (fresh 0)
      one_user 5 (fresh 0) one_user-Accounts refl

abbrev drawing : PacketMessage
drawing = record {
  version = 1;
  packet_type = 12;
  packet_id = 3;
  action = some (PacketAction.broadcast (record { elements = drawn_text ∷ drawn_text ∷ [] }));
}

handle_broadcast-empty_example :
    map shape (handle_broadcast element_stack drawing) ≡ empty ∷ empty ∷ []
handle_broadcast-empty_example = handle_broadcast-empty element_stack drawing

-- The client has started at time 100, and the first of two endpoints refuses at time 101.
abbrev started : Actor
started = start (21 ∷ 22 ∷ []) 100 (constructed (fresh 7))

abbrev refused : Actor
refused = handle_connect true (21, 22 ∷ []) 101 (record started { connecting = none })

reaches_refused : Reach element_stack stack protobuf started refused
unfolding start
reaches_refused = later here (connects started (21, 22 ∷ []) true 101 refl)

Reach-Attempts_example : Attempts (21 ∷ 22 ∷ []) refused
Reach-Attempts_example =
    Reach-Attempts element_stack stack protobuf (21 ∷ 22 ∷ []) 100 (fresh 7) reaches_refused

-- The second accepts at time 102, and nothing comes until the deadline.
abbrev reader : Actor
reader = handle_connect false (22, []) 102 (record refused { connecting = none })

times_out_example :
    Reach element_stack stack protobuf reader (stranded reader)
    × ((b : Actor) → Reach element_stack stack protobuf (stranded reader) b → b ≡ stranded reader)
unfolding handle_connect start
times_out_example = times_out element_stack stack protobuf reader 105 refl refl refl refl refl refl

-- After client 8, at socket 5, has joined the session of "o".
abbrev in_session : Client × Server Memory
in_session =
    exchange memory host element_stack stack (send write writes (joins_session "o")) 5 (fresh 8) s

join_exchange_example :
    (in_session.0.whiteboard_id ≡ "o")
    × (connected "o" 5 in_session.1.whiteboard_sessions ≡ true)
    × (documented.whiteboard in_session.1.db 0
        ≡ some (record doc { active_user_ids = some (7 ∷ 9 ∷ 8 ∷ []) }))
unfolding contains with_member
join_exchange_example =
    join_exchange memory documented host write writes element_stack stack 5 (fresh 8) s "o" 0 doc
      (7 ∷ 9 ∷ []) refl refl (omega arith) refl
