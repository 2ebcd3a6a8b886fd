-- ===== src/Server/Running.antt =====
-- The whole of src/server/server.cpp at work: the constructor and `start` of WhiteboardServer, whose loop
-- accepts connections for the pool, and the workers, each in the loop of one connection. A step is
-- one act of one thread on what the threads share; which thread comes next is left open, also
-- between the acts of one handler.
pub mod Served
pub mod Crowd
pub mod Turns
use xyzwhiteboard.Base.{ℕ, Bool, true, false, some, List, [], ◌∷◌, ◌++◌, ◌≡◌, get_elem?}
use xyzwhiteboard.Action.{PacketMessage}
use xyzwhiteboard.Server.Mongo.{Mongo}
use xyzwhiteboard.Server.State.{Server, Host, fresh_server}
use xyzwhiteboard.Server.ThreadPool as ThreadPool
use xyzwhiteboard.Server.ThreadPool.{
  Worker, waiting, busy, enqueue, take_task, finish_task, exit_worker, stop_pool,
}
use xyzwhiteboard.Server.Acts.{Act}

-- `accepting` while accept_connections has not returned; `read` holds the packets that the workers have
-- read, in order, with their sockets.
pub record Running (Db : Type 0) : Type 0 where
  pub pool : ThreadPool.ThreadPool ℕ
  pub server : Server Db
  pub accepting : Bool
  pub read : List (ℕ × PacketMessage)

-- The member `thread_pool{5}`.
abbrev pub num_threads : ℕ
num_threads = 5

abbrev pub construct : {Db : Type 0} → Db → Running Db
construct db = record {
  pool = ThreadPool.construct num_threads;
  server = fresh_server db;
  accepting = true;
  read = [];
}

module _ {Db : Type 0} where
  abbrev pub with_pool : Running Db → ThreadPool.ThreadPool ℕ → Running Db
  with_pool r pool = record r { pool = pool }

module _ (M : Mongo) (host : Host) where
  pub data Step : Running M.Db → Running M.Db → Type 0 where
    -- A client has connected and shaken hands; or an exception ends the loop that accepts.
    accepts :
        (r : Running M.Db) (socket : ℕ)
        → r.accepting ≡ true
        → Step r (with_pool r (enqueue socket r.pool))
    fails : (r : Running M.Db) → r.accepting ≡ true → Step r (record r { accepting = false })
    -- A worker begins the next connection.
    begins :
        (r : Running M.Db) (i socket : ℕ) (rest : List ℕ)
        → get_elem? r.pool.workers i ≡ some waiting
        → r.pool.tasks ≡ socket ∷ rest
        → Step r (with_pool r (take_task i socket rest r.pool))
    -- It reads a packet; and it does one act of the handler of a packet that it has read. The acts of
    -- a packet may come in any order and number here, those of its handler among others.
    reads :
        (r : Running M.Db) (i socket : ℕ) (packet : PacketMessage)
        → get_elem? r.pool.workers i ≡ some (busy socket)
        → Step r (record r { read = r.read ++ (socket, packet) ∷ [] })
    acts :
        (r : Running M.Db) (i n socket : ℕ) (packet : PacketMessage) (s : Server M.Db)
        → get_elem? r.pool.workers i ≡ some (busy socket)
        → get_elem? r.read n ≡ some (socket, packet)
        → Act M host socket packet r.server s
        → Step r (record r { server = s })
    -- The loop ends: at the end of the stream, or with an exception of a read or a handler.
    ends :
        (r : Running M.Db) (i socket : ℕ)
        → get_elem? r.pool.workers i ≡ some (busy socket)
        → Step r (with_pool r (finish_task i socket r.pool))
    -- `start` has returned, and the server is destroyed. The members that the workers use stay here,
    -- while the source destroys them before the pool.
    stops :
        (r : Running M.Db)
        → r.accepting ≡ false
        → r.pool.stop ≡ false
        → Step r (with_pool r (stop_pool r.pool))
    exits :
        (r : Running M.Db) (i : ℕ)
        → get_elem? r.pool.workers i ≡ some waiting
        → r.pool.stop ≡ true
        → r.pool.tasks ≡ []
        → Step r (with_pool r (exit_worker i r.pool))
    -- A worker goes to sleep or is woken.
    waits :
        (r : Running M.Db) (pool : ThreadPool.ThreadPool ℕ)
        → ThreadPool.Wait r.pool pool
        → Step r (with_pool r pool)

  pub data Reach (r : Running M.Db) : Running M.Db → Type 0 where
    here : Reach r r
    later : {p q : Running M.Db} → Reach r p → Step p q → Reach r q
