-- ===== src/Server/Running/Served.antt =====
-- What the threads of the server of src/server/server.cpp can do together.
use mathlib.Core.Bool.{false≢true}
use mathlib.Core.List.{Mem, mem-cons_self, mem-cons_of_mem, mem-append_right, mem-append_left}
use mathlib.Core.List.Perm as P
use xyzwhiteboard.Base.{
  contains, subst, ℕ, zero, suc, ◌≤◌, true, false, some, List, [], ◌∷◌, ◌++◌, ◌≡◌, refl, arith, sym,
  ◌∙◌, length, get_elem?, Bool-cases, inl, inr,
}
use xyzwhiteboard.Action.{PacketMessage}
use xyzwhiteboard.Server.Mongo.{Mongo}
use xyzwhiteboard.Server.State.{Host}
use xyzwhiteboard.Server.Sessions.{find}
use xyzwhiteboard.Server.ThreadPool as ThreadPool
use xyzwhiteboard.Server.ThreadPool.{Worker, waiting, asleep, busy, exited, running}
use xyzwhiteboard.Server.ThreadPool.Order.{Reach-PoolInv}
use xyzwhiteboard.Server.Connection.Replies.{Fair, Act-Fair, more-Fair}
use xyzwhiteboard.Server.Running.{
  Running, num_threads, construct, Step, accepts, fails, begins, reads, acts, ends, waits, stops,
  exits, Reach, here, later,
}

running_mem :
    (ws : List (Worker ℕ)) (i socket : ℕ)
    → get_elem? ws i ≡ some (busy socket)
    → Mem socket (running ws)
running_mem [] i socket h = cc
running_mem (asleep ∷ ws) zero socket h = cc
running_mem (asleep ∷ ws) (suc i) socket h = running_mem ws i socket h
running_mem (waiting ∷ ws) zero socket h = cc
running_mem (busy t ∷ ws) zero socket h = let e : socket ≡ t = cc in rw e mem-cons_self
running_mem (exited ∷ ws) zero socket h = cc
running_mem (waiting ∷ ws) (suc i) socket h = running_mem ws i socket h
running_mem (busy t ∷ ws) (suc i) socket h = mem-cons_of_mem t (running_mem ws i socket h)
running_mem (exited ∷ ws) (suc i) socket h = running_mem ws i socket h

pub running_few : (ws : List (Worker ℕ)) → length (running ws) ≤ length ws
running_few [] = omega arith
running_few (asleep ∷ ws) = omega (arith, running_few ws)
running_few (waiting ∷ ws) = omega (arith, running_few ws)
running_few (busy t ∷ ws) = omega (arith, running_few ws)
running_few (exited ∷ ws) = omega (arith, running_few ws)

-- The sockets of the packets are among the connections that were begun.
abbrev pub Begun : List (ℕ × PacketMessage) → List ℕ → Type 0
Begun [] started = Unit {0}
Begun ((socket, packet) ∷ events) started = Mem socket started × Begun events started

Begun-append :
    (es fs : List (ℕ × PacketMessage)) (started : List ℕ)
    → Begun es started
    → Begun fs started
    → Begun (es ++ fs) started
Begun-append [] fs started h k = k
Begun-append (e ∷ es) fs started (h, hs) k = (h, Begun-append es fs started hs k)

Begun-more :
    (es : List (ℕ × PacketMessage)) (started more : List ℕ)
    → Begun es started
    → Begun es (started ++ more)
Begun-more [] started more h = tt
Begun-more (e ∷ es) started more (h, hs) = (mem-append_left more h, Begun-more es started more hs)

pub Wait-started : {p q : ThreadPool.ThreadPool ℕ} → ThreadPool.Wait p q → q.started ≡ p.started
Wait-started (ThreadPool.sleeps p i idle open_pool empty) = refl
Wait-started (ThreadPool.notifies p i n sleeper calls) = refl
Wait-started (ThreadPool.notifies_nobody p n nobody calls) = refl
Wait-started (ThreadPool.notifies_all p call) = refl
Wait-started (ThreadPool.wakes p i sleeper) = refl

Wait-stop : {p q : ThreadPool.ThreadPool ℕ} → ThreadPool.Wait p q → q.stop ≡ p.stop
Wait-stop (ThreadPool.sleeps p i idle open_pool empty) = refl
Wait-stop (ThreadPool.notifies p i n sleeper calls) = refl
Wait-stop (ThreadPool.notifies_nobody p n nobody calls) = refl
Wait-stop (ThreadPool.notifies_all p call) = refl
Wait-stop (ThreadPool.wakes p i sleeper) = refl

module _ (M : Mongo) (host : Host) where
  -- What holds of the whole server.
  pub record Inv (r : Running M.Db) : Type 0 where
    pub pool : ThreadPool.Reach (ThreadPool.construct num_threads) r.pool
    pub closed : r.pool.stop ≡ true → r.accepting ≡ false
    pub begun : Begun r.read r.pool.started
    pub fair : Fair M host r.read r.server

  busy_begun :
      (r : Running M.Db) (i socket : ℕ)
      → Inv r
      → get_elem? r.pool.workers i ≡ some (busy socket)
      → Mem socket r.pool.started
  busy_begun r i socket inv h =
      (P.mem_iff (Reach-PoolInv {n = num_threads} inv.pool).placed).1
        (mem-append_right r.pool.finished (running_mem r.pool.workers i socket h))

  open_pool : (r : Running M.Db) → Inv r → r.accepting ≡ true → r.pool.stop ≡ false
  open_pool r inv accepting = elim (Bool-cases r.pool.stop) [
    | inl stopped ↦ absurd (false≢true (sym (inv.closed stopped) ∙ accepting))
    | inr running ↦ running
  ]

  Step-Inv : {p q : Running M.Db} → Step M host p q → Inv p → Inv q
  Step-Inv (accepts r socket h) inv = record {
    pool = ThreadPool.later inv.pool (ThreadPool.enqueues r.pool socket (open_pool r inv h));
    closed = inv.closed;
    begun = inv.begun;
    fair = inv.fair;
  }
  Step-Inv (fails r h) inv = record {
    pool = inv.pool;
    closed = λ stopped. refl;
    begun = inv.begun;
    fair = inv.fair;
  }
  Step-Inv (begins r i socket rest idle front) inv = record {
    pool = ThreadPool.later inv.pool (ThreadPool.takes r.pool i socket rest idle front);
    closed = inv.closed;
    begun = Begun-more r.read r.pool.started (socket ∷ []) inv.begun;
    fair = inv.fair;
  }
  Step-Inv (reads r i socket packet at) inv = record {
    pool = inv.pool;
    closed = inv.closed;
    begun = Begun-append r.read _ _ inv.begun (busy_begun r i socket inv at, tt);
    fair = more-Fair M host r.read ((socket, packet) ∷ []) r.server inv.fair;
  }
  Step-Inv (acts r i n socket packet s at came act) inv = record {
    pool = inv.pool;
    closed = inv.closed;
    begun = inv.begun;
    fair =
        Act-Fair M host r.read (record { request = packet; place = n; came = came }) act inv.fair;
  }
  Step-Inv (ends r i socket at) inv = record {
    pool = ThreadPool.later inv.pool (ThreadPool.finishes r.pool i socket at);
    closed = inv.closed;
    begun = inv.begun;
    fair = inv.fair;
  }
  Step-Inv (stops r closed once) inv = record {
    pool = ThreadPool.later inv.pool (ThreadPool.stops r.pool once);
    closed = λ stopped. closed;
    begun = inv.begun;
    fair = inv.fair;
  }
  Step-Inv (exits r i idle stopped none_left) inv = record {
    pool = ThreadPool.later inv.pool (ThreadPool.exits r.pool i idle stopped none_left);
    closed = inv.closed;
    begun = inv.begun;
    fair = inv.fair;
  }
  Step-Inv (waits r pool wait) inv = record {
    pool = ThreadPool.later inv.pool (ThreadPool.waits wait);
    closed = λ stopped. inv.closed (sym (Wait-stop wait) ∙ stopped);
    begun = subst (Begun r.read) (sym (Wait-started wait)) inv.begun;
    fair = inv.fair;
  }

  pub Reach-Inv : {db : M.Db} {r : Running M.Db} → Reach M host (construct db) r → Inv r
  unfolding find contains
  Reach-Inv here = record {
    pool = ThreadPool.here;
    closed = λ stopped. absurd (false≢true stopped);
    begun = tt;
    fair = record { owed = tt; heard = λ j k there. cc };
  }
  Reach-Inv (later reach step) = Step-Inv step (Reach-Inv reach)
