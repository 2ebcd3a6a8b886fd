-- ===== src/Server/ThreadPool.antt =====
-- src/server/thread_pool.hpp: the class ThreadPool, as the steps that its threads take. A step is what
-- one thread does under `queue_mutex`, a call on `condition`, or the end of a task; which thread comes
-- next is left open.
pub mod Workers
pub mod Order
pub mod Progress
pub mod Shutdown
use xyzwhiteboard.Base.{
  ℕ, zero, suc, Bool, true, false, Option, some, List, [], ◌∷◌, ◌++◌, ◌≡◌, ◌≢◌, get_elem?, set,
  replicate,
}

-- Where a worker stands: at the test of its wait's predicate, asleep in the wait, in `task()`, or
-- returned.
pub data Worker (A : Type 0) : Type 0 where
  waiting asleep : Worker A
  busy : A → Worker A
  exited : Worker A

-- `notifying` counts the calls of notify_one that enqueue has still to make, and `notifying_all` holds
-- while the destructor has to call notify_all. Beside these and the members, the tasks in the order
-- of their enqueueing, of their start and of their end.
pub record ThreadPool (A : Type 0) : Type 0 where
  pub workers : List (Worker A)
  pub tasks : List A
  pub stop : Bool
  pub notifying : ℕ
  pub notifying_all : Bool
  pub enqueued : List A
  pub started : List A
  pub finished : List A

module _ {A : Type 0} where
  -- ThreadPool(num_threads)
  abbrev pub construct : ℕ → ThreadPool A
  construct num_threads = record {
    workers = replicate num_threads waiting;
    tasks = [];
    stop = false;
    notifying = 0;
    notifying_all = false;
    enqueued = [];
    started = [];
    finished = [];
  }

  -- `enqueue`: tasks.emplace(f), and then, without the lock, notify_one().
  abbrev pub enqueue : A → ThreadPool A → ThreadPool A
  enqueue f p = record p {
    tasks = p.tasks ++ f ∷ [];
    notifying = suc p.notifying;
    enqueued = p.enqueued ++ f ∷ [];
  }

  -- task = tasks.front(); tasks.pop(); the worker goes on to `task()`.
  abbrev pub take_task : ℕ → A → List A → ThreadPool A → ThreadPool A
  take_task i task rest p = record p {
    workers = set p.workers i (busy task);
    tasks = rest;
    started = p.started ++ task ∷ [];
  }

  abbrev pub finish_task : ℕ → A → ThreadPool A → ThreadPool A
  finish_task i task p = record p {
    workers = set p.workers i waiting;
    finished = task ∷ p.finished;
  }

  abbrev pub exit_worker : ℕ → ThreadPool A → ThreadPool A
  exit_worker i p = record p { workers = set p.workers i exited }

  -- The head of the destructor: stop = true, and then, without the lock, notify_all(). It then joins the
  -- workers.
  abbrev pub stop_pool : ThreadPool A → ThreadPool A
  stop_pool p = record p { stop = true; notifying_all = true }

  abbrev pub set_worker : ℕ → Worker A → ThreadPool A → ThreadPool A
  set_worker i w p = record p { workers = set p.workers i w }

  -- notify_one, where it wakes the i-th worker, with n calls left to make.
  abbrev pub notify_one : ℕ → ℕ → ThreadPool A → ThreadPool A
  notify_one i n p = record (set_worker i waiting p) { notifying = n }

  -- Every sleeper is woken.
  abbrev pub wake_all : List (Worker A) → List (Worker A)
  wake_all [] = []
  wake_all (asleep ∷ ws) = waiting ∷ wake_all ws
  wake_all (w ∷ ws) = w ∷ wake_all ws

  abbrev pub notify_all : ThreadPool A → ThreadPool A
  notify_all p = record p { workers = wake_all p.workers; notifying_all = false }

  -- What happens on `condition`. A worker sleeps while the pool is not stopped and its queue is empty.
  -- A call of notify_one wakes one sleeper, whichever, if there is one. A sleeper may also wake
  -- without a call.
  pub data Wait : ThreadPool A → ThreadPool A → Type 0 where
    sleeps :
        (p : ThreadPool A) (i : ℕ)
        → get_elem? p.workers i ≡ some waiting
        → p.stop ≡ false
        → p.tasks ≡ []
        → Wait p (set_worker i asleep p)
    notifies :
        (p : ThreadPool A) (i n : ℕ)
        → get_elem? p.workers i ≡ some asleep
        → p.notifying ≡ suc n
        → Wait p (notify_one i n p)
    notifies_nobody :
        (p : ThreadPool A) (n : ℕ)
        → ((i : ℕ) → get_elem? p.workers i ≢ some asleep)
        → p.notifying ≡ suc n
        → Wait p (record p { notifying = n })
    notifies_all : (p : ThreadPool A) → p.notifying_all ≡ true → Wait p (notify_all p)
    wakes :
        (p : ThreadPool A) (i : ℕ)
        → get_elem? p.workers i ≡ some asleep
        → Wait p (set_worker i waiting p)

  -- A worker leaves its wait on `stop || !tasks.empty()`, and returns if `stop && tasks.empty()`.
  -- The pool is destroyed once, and nobody enqueues to a pool that is being destroyed.
  pub data Step : ThreadPool A → ThreadPool A → Type 0 where
    enqueues : (p : ThreadPool A) (f : A) → p.stop ≡ false → Step p (enqueue f p)
    takes :
        (p : ThreadPool A) (i : ℕ) (task : A) (rest : List A)
        → get_elem? p.workers i ≡ some waiting
        → p.tasks ≡ task ∷ rest
        → Step p (take_task i task rest p)
    finishes :
        (p : ThreadPool A) (i : ℕ) (task : A)
        → get_elem? p.workers i ≡ some (busy task)
        → Step p (finish_task i task p)
    exits :
        (p : ThreadPool A) (i : ℕ)
        → get_elem? p.workers i ≡ some waiting
        → p.stop ≡ true
        → p.tasks ≡ []
        → Step p (exit_worker i p)
    stops : (p : ThreadPool A) → p.stop ≡ false → Step p (stop_pool p)
    waits : {p q : ThreadPool A} → Wait p q → Step p q

  pub data Reach (s : ThreadPool A) : ThreadPool A → Type 0 where
    here : Reach s s
    later : {p q : ThreadPool A} → Reach s p → Step p q → Reach s q

  -- The tasks that workers are in.
  abbrev pub running : List (Worker A) → List A
  running [] = []
  running (waiting ∷ ws) = running ws
  running (asleep ∷ ws) = running ws
  running (busy task ∷ ws) = task ∷ running ws
  running (exited ∷ ws) = running ws
