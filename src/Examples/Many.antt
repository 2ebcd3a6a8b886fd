-- ===== src/Examples/Many.antt =====
-- A use of the theorem on many clients at a run of two of them.
use xyzwhiteboard.Base.{true, ℕ, [], ◌∷◌, ◌++◌, refl, arith}
use xyzwhiteboard.Action.{PacketMessage}
use xyzwhiteboard.Server.State.{action_response, run}
use xyzwhiteboard.Server.Boards.{handle_create_whiteboard_request}
use xyzwhiteboard.Server.Users.{handle_register_request, get_next_sequence}
use xyzwhiteboard.Packet.Build.{new_action_response}
use xyzwhiteboard.Server.Connection as Connection
use xyzwhiteboard.Client.{Client, send_register_request, send_create_whiteboard_request}
use xyzwhiteboard.Client.Receive.Answers.{Request, creates_whiteboard, registers, send, message}
use xyzwhiteboard.Exchange.Many.{Many, update, next, begin, sends, handles, Reach, here, later}
use xyzwhiteboard.Exchange.Many.Answers.{Matched, Reach-Matched}
use xyzwhiteboard.Examples.Memory.{Memory, memory, host}
use xyzwhiteboard.Examples.Boards.{s}
use xyzwhiteboard.Examples.Clients.{write, writes, fresh, stack, element_stack}

abbrev clients : ℕ → Client
clients k = fresh 0

abbrev asks : ℕ → Request → Many Memory → Many Memory
asks k request r = record r {
  clients = update k (send write writes request (r.clients k)).1 r.clients;
}

abbrev served : ℕ → PacketMessage → Many Memory → Many Memory
served k m r = record r {
  server = (Connection.handle_packet memory host m k r.server).1;
  arrived = next k r.arrived;
  handled = r.handled ++ (k, m) ∷ [];
}

-- Clients 4 and 5 send; the packet of 5 is handled first.
abbrev start : Many Memory
start = begin clients s.db

abbrev create : PacketMessage
create = message write writes creates_whiteboard (fresh 0)

abbrev registration : PacketMessage
registration = message write writes (registers "bob" "pw") (fresh 0)

abbrev asking : Many Memory
asking = asks 5 (registers "bob" "pw") (asks 4 creates_whiteboard start)

abbrev both_served : Many Memory
both_served = served 4 create (served 5 registration asking)

reaches_run : Reach memory host element_stack stack write writes start both_served
unfolding send_register_request send_create_whiteboard_request
reaches_run =
    later
      (later
        (later (later here (sends start 4 creates_whiteboard (omega arith)))
          (sends (asks 4 creates_whiteboard start) 5 (registers "bob" "pw") (omega arith)))
        (handles asking 5 registration refl))
      (handles (served 5 registration asking) 4 create refl)

-- To client 4 the server has announced an id, and then the whiteboard's.
Reach-Matched_example :
    Matched memory host element_stack stack write writes both_served 4
      (action_response 1 true "ooo").packet
unfolding Connection.handle_packet handle_create_whiteboard_request handle_register_request
    get_next_sequence run new_action_response
Reach-Matched_example =
    Reach-Matched memory host element_stack stack write writes clients s.db (λ k. refl) reaches_run
      4 1 (action_response 1 true "ooo").packet refl refl
