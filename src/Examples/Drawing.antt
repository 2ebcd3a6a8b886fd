-- ===== src/Examples/Drawing.antt =====
-- Uses of the theorems on elements and connections at concrete requests.
use xyzwhiteboard.Base.{ℕ, String, true, false, some, List, [], ◌∷◌, ◌++◌, ◌≡◌, ◌≢◌, refl, contains}
use xyzwhiteboard.Base.Fail.{ok, thrown}
use xyzwhiteboard.Action.{PacketMessage, PacketAction}
use xyzwhiteboard.Server.Mongo.{WhiteboardDoc, push_elements}
use xyzwhiteboard.Server.Sessions.{find}
use xyzwhiteboard.Server.Sessions.Sets.{SessionsInv}
use xyzwhiteboard.Server.Sessions.Refinement.{
  Operation, adds, removes, apply_all, specified_all, Refines, refines,
}
use xyzwhiteboard.Server.State.{action_response}
use xyzwhiteboard.Server.Elements.{
  stored_elements, elements_packet, stores_element, handle_add_element_request,
  handle_modify_element_request,
}
use xyzwhiteboard.Server.Elements.Broadcast.{to_all}
use xyzwhiteboard.Server.Elements.Add.{add_shared}
use xyzwhiteboard.Server.Elements.Modify.{Refused, modify_throws, modify_refuses}
use xyzwhiteboard.Server.Connection.{serve}
use xyzwhiteboard.Server.Connection.Sessions.{serve-SessionsInv}
use xyzwhiteboard.Examples.Memory.{memory, documented, host, updated}
use xyzwhiteboard.Examples.Boards.{doc, s, message, text_of, opening, join, quit}

abbrev add : ℕ → String → PacketMessage
add user_id whiteboard_id = message (
    PacketAction.add_element
      (record { user_id = user_id; whiteboard_id = whiteboard_id; element = some (text_of "b") }))

-- The whiteboard "o" with the new text.
abbrev with_b : WhiteboardDoc
with_b = record doc { elements = some ("ta" ∷ "tb" ∷ []) }

add_shared_example :
    (handle_add_element_request memory host (add 9 "o") 6 s ≡ (
      ok tt,
      record s {
        db = updated s.db 0 (push_elements "tb" ∷ []);
        sent =
            (6, (action_response 5 true "Element added successfully").packet)
            ∷ to_all (4 ∷ 6 ∷ []) (elements_packet memory host with_b 100);
        draws = 1;
      },
    ))
    × (documented.whiteboard (updated s.db 0 (push_elements "tb" ∷ [])) 0 ≡ some with_b)
    × (stored_elements memory host with_b ≡ stored_elements memory host doc ++ text_of "b" ∷ [])
    × ((p : ℕ)
        → 0 ≢ p
        → documented.whiteboard (updated s.db 0 (push_elements "tb" ∷ [])) p
          ≡ documented.whiteboard s.db p)
unfolding find contains
add_shared_example =
    add_shared memory documented host (add 9 "o") 6 s 0 refl doc refl refl (4 ∷ 6 ∷ []) refl refl

abbrev modify : PacketMessage
modify = message (
    PacketAction.modify_element (record {
      user_id = 9;
      whiteboard_id = "o";
      orig_element = some (text_of "a");
      modi_element = some (text_of "b");
    }))

modify_throws_example :
    handle_modify_element_request memory host modify 6 s ≡ (thrown "conflict", s)
unfolding stores_element contains
modify_throws_example =
    modify_throws memory documented host modify 6 s 0 doc ("ta" ∷ []) refl refl refl refl refl

modify_refuses_example :
    Refused memory documented host 6 s (handle_modify_element_request memory host modify 6 s)
modify_refuses_example = modify_refuses memory documented host modify 6 s

abbrev joins_and_leaves : List Operation
joins_and_leaves = adds "o" 4 ∷ adds "oo" 5 ∷ adds "o" 6 ∷ removes "o" 4 ∷ removes "oo" 5 ∷ []

refines_example :
    Refines (apply_all joins_and_leaves []) (specified_all joins_and_leaves (λ k socket. false))
refines_example = refines joins_and_leaves

no_session : SessionsInv []
unfolding find
no_session = record { sets = λ k sockets e. cc }

abbrev pub typed : ℕ → PacketMessage → PacketMessage
typed packet_type packet = record packet { packet_type = packet_type }

abbrev pub events : List (ℕ × PacketMessage)
events =
    (4, typed 2 opening) ∷ (5, typed 3 join) ∷ (6, typed 4 quit) ∷ (4, typed 5 (add 9 "o")) ∷ []

serve-SessionsInv_example :
    SessionsInv
      (serve memory host events (record s { whiteboard_sessions = [] })).whiteboard_sessions
serve-SessionsInv_example =
    serve-SessionsInv memory host events (record s { whiteboard_sessions = [] }) no_session
