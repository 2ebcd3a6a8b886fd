-- ===== src/Examples/Serving.antt =====
-- Uses of the theorems on the whole of src/server/server.cpp at concrete runs.
use xyzwhiteboard.Base.{ℕ, zero, suc, ◌+◌, true, some, [], ◌∷◌, ◌≡◌, refl, not, ◌==◌, get_elem?}
use xyzwhiteboard.Server.State.{action_response, Host, reliable}
use xyzwhiteboard.Server.Sessions.{add_socket_to_whiteboard}
use xyzwhiteboard.Server.Acts.{Acts}
use xyzwhiteboard.Server.Acts.Handlers.{handle_packet-Acts}
use xyzwhiteboard.Server.ThreadPool.{waiting, enqueue, take_task}
use xyzwhiteboard.Server.Connection.{handle_packet, serve}
use xyzwhiteboard.Server.Connection.Writes.{Alike, serve-Alike}
use xyzwhiteboard.Server.Running.{
  Running, with_pool, construct, accepts, begins, Reach, here, later,
}
use xyzwhiteboard.Server.Running.Crowd.{now, then_quiet, sixth_waits}
use xyzwhiteboard.Action.{PacketMessage}
use xyzwhiteboard.Base.{List}
use xyzwhiteboard.Examples.Memory.{Memory, memory, host}
use xyzwhiteboard.Examples.Boards.{s, opening, join}
use xyzwhiteboard.Examples.Drawing.{events, typed}

-- Every write to socket 4 fails.
abbrev breaking : Host
breaking = record host { writes = λ sent socket m. not (socket == 4) }

serve-Alike_example :
    Alike breaking (serve memory breaking events s) (serve memory (reliable breaking) events s)
serve-Alike_example = serve-Alike breaking memory events s

abbrev db : Memory
db = s.db

abbrev accepted : ℕ → Running Memory → Running Memory
accepted socket r = with_pool r (enqueue socket r.pool)

abbrev begun : ℕ → ℕ → Running Memory → Running Memory
begun i socket r = with_pool r (take_task i socket [] r.pool)

-- The i-th worker takes the connection 10 + i.
abbrev crowd : ℕ → Running Memory
crowd zero = construct db
crowd (suc i) = begun i (10 + i) (accepted (10 + i) (crowd i))

next :
    (i : ℕ)
    → (crowd i).accepting ≡ true
    → (accepted (10 + i) (crowd i)).pool.tasks ≡ (10 + i) ∷ []
    → get_elem? (crowd i).pool.workers i ≡ some waiting
    → Reach memory host (construct db) (crowd i)
    → Reach memory host (construct db) (crowd (suc i))
next i going front idle reach =
    later (later reach (accepts (crowd i) (10 + i) going))
      (begins (accepted (10 + i) (crowd i)) i (10 + i) [] idle front)

five_begun : Reach memory host (construct db) (crowd 5)
five_begun = next 4 refl refl refl (
    next 3 refl refl refl
      (next 2 refl refl refl (next 1 refl refl refl (next 0 refl refl refl here))))

abbrev full : Running Memory
full = crowd 5

-- The third of them asks to open a session; its handler finds the whiteboard, and then the fourth
-- connection's packet is read before the socket is connected and the reply sent.
abbrev opened : Running Memory
opened = record full {
  server = record full.server {
    whiteboard_sessions = add_socket_to_whiteboard "oo" 12 [];
    sent = (12, (action_response 5 true "Session created successfully").packet) ∷ [];
  };
  read = (12, typed 2 opening) ∷ (13, typed 3 join) ∷ [];
}

abbrev asking : Running Memory
asking = record full { read = (12, typed 2 opening) ∷ [] }

abbrev both_read : Running Memory
both_read = record full { read = (12, typed 2 opening) ∷ (13, typed 3 join) ∷ [] }

abbrev connected : Running Memory
connected = record both_read {
  server = record full.server { whiteboard_sessions = add_socket_to_whiteboard "oo" 12 [] };
}

handle_packet-Acts_example :
    Acts memory breaking 5 (typed 3 join) s (handle_packet memory breaking (typed 3 join) 5 s).1
handle_packet-Acts_example = handle_packet-Acts memory breaking 5 (typed 3 join) s

sixth_waits_example :
    ((accepted 15 full).pool.started ≡ full.pool.started)
    × ((accepted 15 full).pool.workers ≡ full.pool.workers)
sixth_waits_example =
    sixth_waits memory host five_begun refl (then_quiet now (accepts full 15 refl) tt)

-- Two packets of the third and the fourth connection.
abbrev two_packets : List (ℕ × PacketMessage)
two_packets = (12, typed 2 opening) ∷ (13, typed 3 join) ∷ []
