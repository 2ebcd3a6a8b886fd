-- ===== src/Examples/Boards.antt =====
-- Uses of the theorems on whiteboards and sessions at concrete requests.
use xyzwhiteboard.Base.{
  ℕ, String, contains, ◌==◌, str_eq, if◌then◌else◌, true, none, some, [], ◌∷◌, ◌≡◌, ◌≢◌, refl,
  arith, without, with_member,
}
use xyzwhiteboard.Base.Fail.{ok}
use xyzwhiteboard.Proto.{Element}
use xyzwhiteboard.Action.{PacketMessage, PacketAction}
use xyzwhiteboard.Server.Mongo.{
  WhiteboardDoc, set_active_user_ids, add_to_set_active_user_ids, pull_active_user_ids,
}
use xyzwhiteboard.Server.Sessions.{add_socket_to_whiteboard}
use xyzwhiteboard.Server.Sessions.Laws.{connected}
use xyzwhiteboard.Server.State.{Server, action_response}
use xyzwhiteboard.Server.Elements.{elements_packet}
use xyzwhiteboard.Server.Boards.{
  handle_create_session_request, handle_join_session_request, handle_quit_session_request,
}
use xyzwhiteboard.Server.Boards.Create.{create_session_owner}
use xyzwhiteboard.Server.Boards.Session.{join_active, quitted, quit_stays, quit_last}
use xyzwhiteboard.Examples.Memory.{Memory, memory, documented, host, updated}

-- User 7's whiteboard with the text "a"; 7 and 9 are active.
abbrev pub doc : WhiteboardDoc
doc = record {
  uid = some 7;
  elements = some ("ta" ∷ []);
  created_at = 3;
  active_user_ids = some (7 ∷ 9 ∷ []);
}

-- The same without a session.
abbrev pub closed : WhiteboardDoc
closed = record doc { active_user_ids = none }

-- The whiteboard "o" is shared by the sockets 4 and 6; "oo" has no session.
abbrev pub s : Server Memory
s = record {
  db = record { boards = some doc ∷ some closed ∷ []; users = []; sequence = none };
  whiteboard_sessions = ("o", 4 ∷ 6 ∷ []) ∷ [];
  sent = [];
  draws = 0;
}

abbrev pub text_of : String → Element
text_of content = Element.text (record { common = none; center = none; content = content })

abbrev pub message : PacketAction → PacketMessage
message action = record { version = 1; packet_type = 0; packet_id = 5; action = some action }

abbrev pub create : ℕ → PacketMessage
create user_id = message (PacketAction.create_whiteboard (record { user_id = user_id }))

abbrev pub opening : PacketMessage
opening = message (PacketAction.create_session (record { user_id = 7; whiteboard_id = "oo" }))

create_session_owner_example :
    (handle_create_session_request memory host opening 4 s ≡ (
      ok tt,
      record s {
        db = updated s.db 1 (set_active_user_ids (7 ∷ []) ∷ []);
        whiteboard_sessions = add_socket_to_whiteboard "oo" 4 s.whiteboard_sessions;
        sent = (4, (action_response 5 true "Session created successfully").packet) ∷ [];
      },
    ))
    × (documented.whiteboard (updated s.db 1 (set_active_user_ids (7 ∷ []) ∷ [])) 1
        ≡ some (record closed { active_user_ids = some (7 ∷ []) }))
    × ((o : ℕ)
        → 1 ≢ o
        → documented.whiteboard (updated s.db 1 (set_active_user_ids (7 ∷ []) ∷ [])) o
          ≡ documented.whiteboard s.db o)
create_session_owner_example =
    create_session_owner memory documented host opening 4 s 1 closed refl refl refl

abbrev pub join : PacketMessage
join = message (PacketAction.join_session (record { user_id = 8; whiteboard_id = "o" }))

join_active_example :
    (handle_join_session_request memory host join 5 s ≡ (
      ok tt,
      record s {
        db = updated s.db 0 (add_to_set_active_user_ids 8 ∷ []);
        whiteboard_sessions = add_socket_to_whiteboard "o" 5 s.whiteboard_sessions;
        sent =
            (5, (elements_packet memory host doc 100).packet)
            ∷ (5, (action_response 5 true "o").packet)
            ∷ [];
        draws = 1;
      },
    ))
    × (documented.whiteboard (updated s.db 0 (add_to_set_active_user_ids 8 ∷ [])) 0
        ≡ some (record doc { active_user_ids = some (with_member 8 (7 ∷ 9 ∷ [])) }))
    × ((id : ℕ)
        → contains id (with_member 8 (7 ∷ 9 ∷ []))
          ≡ (if 8 == id then true else contains id (7 ∷ 9 ∷ [])))
    × ((k : String) (other : ℕ)
        → connected k other (add_socket_to_whiteboard "o" 5 s.whiteboard_sessions) ≡ (
            if str_eq "o" k
            then (if 5 == other then true else connected k other s.whiteboard_sessions)
            else connected k other s.whiteboard_sessions))
join_active_example =
    join_active memory documented host join 5 s 0 doc refl refl (omega arith) (7 ∷ 9 ∷ []) refl

abbrev pub quit : PacketMessage
quit = message (PacketAction.quit_session (record { user_id = 9; whiteboard_id = "o" }))

quit_stays_example :
    (handle_quit_session_request memory host quit 6 s ≡ (
      ok tt,
      quitted memory documented host quit 6 s 0 refl (updated s.db 0 (pull_active_user_ids 9 ∷ [])),
    ))
    × (documented.whiteboard (updated s.db 0 (pull_active_user_ids 9 ∷ [])) 0
        ≡ some (record doc { active_user_ids = some (without 9 (7 ∷ 9 ∷ [])) }))
unfolding without
quit_stays_example =
    quit_stays memory documented host quit 6 s 0 refl doc (7 ∷ 9 ∷ []) refl refl (λ e. cc)

abbrev lone : WhiteboardDoc
lone = record doc { active_user_ids = some (9 ∷ []) }

abbrev lonely : Server Memory
lonely = record s { db = record { boards = some lone ∷ []; users = []; sequence = none } }

quit_last_example :
    (handle_quit_session_request memory host quit 6 lonely ≡ (
      ok tt,
      quitted memory documented host quit 6 lonely 0 refl
          (documented.deleted (updated lonely.db 0 (pull_active_user_ids 9 ∷ [])) 0),
    ))
    × (documented.whiteboard
          (documented.deleted (updated lonely.db 0 (pull_active_user_ids 9 ∷ [])) 0)
          0
        ≡ none)
    × ((o : ℕ)
        → 0 ≢ o
        → documented.whiteboard
            (documented.deleted (updated lonely.db 0 (pull_active_user_ids 9 ∷ [])) 0)
            o
          ≡ documented.whiteboard lonely.db o)
unfolding without
quit_last_example =
    quit_last memory documented host quit 6 lonely 0 refl lone (9 ∷ []) refl refl refl
