-- ===== src/Server/ThreadPool/Shutdown.antt =====
-- The destructor of src/server/thread_pool.hpp: the workers come to their end, with no task left.
use mathlib.Core.List.{Perm, append-nil}
use xyzwhiteboard.Base.{
  ℕ, zero, suc, ◌+◌, ◌*◌, ◌≤◌, ◌<◌, Bool, if◌then◌else◌, true, some, List, [], ◌∷◌, ◌++◌, ◌≡◌, ◌⊎◌,
  inl, inr, refl, arith, ap, sym, ◌∙◌, length, get_elem?, set, replicate,
}
use xyzwhiteboard.Server.ThreadPool.{
  Worker, waiting, asleep, busy, exited, wake_all, notify_all, sleeps, notifies, notifies_nobody,
  notifies_all, wakes, waits, ThreadPool, construct, take_task, finish_task, exit_worker, Step,
  enqueues, takes, finishes, exits, stops, Reach, running,
}
use xyzwhiteboard.Server.ThreadPool.Workers.{total, total-set}
use xyzwhiteboard.Server.ThreadPool.Order.{PoolInv, Reach-PoolInv}

-- The calls of notify_all that are still to be made.
abbrev pub call_left : Bool → ℕ
call_left b = if b then 1 else 0

module _ {A : Type 0} where
  pub data Steps : ℕ → ThreadPool A → ThreadPool A → Type 0 where
    none_more : {p : ThreadPool A} → Steps zero p p
    first : {k : ℕ} {p q r : ThreadPool A} → Step p q → Steps k q r → Steps (suc k) p r

  -- The steps that a worker has before it at most, the tasks in the queue aside.
  abbrev steps_of : Worker A → ℕ
  steps_of waiting = 1
  steps_of asleep = 2
  steps_of (busy task) = 2
  steps_of exited = 0

  abbrev pub steps_left : ThreadPool A → ℕ
  steps_left p =
      2 * length p.tasks + total steps_of p.workers + p.notifying + call_left p.notifying_all

  changed :
      (ws : List (Worker A)) (i : ℕ) (w v : Worker A)
      → get_elem? ws i ≡ some w
      → total steps_of (set ws i v) + steps_of w ≡ total steps_of ws + steps_of v
  changed ws i w v h = total-set steps_of ws i w v h

  total-wake_all : (ws : List (Worker A)) → total steps_of (wake_all ws) ≤ total steps_of ws
  total-wake_all [] = omega arith
  total-wake_all (waiting ∷ ws) = omega (arith, total-wake_all ws)
  total-wake_all (asleep ∷ ws) = omega (arith, total-wake_all ws)
  total-wake_all (busy t ∷ ws) = omega (arith, total-wake_all ws)
  total-wake_all (exited ∷ ws) = omega (arith, total-wake_all ws)

  Step-steps_left :
      {p q : ThreadPool A}
      → Step p q
      → p.stop ≡ true
      → (q.stop ≡ true) × (steps_left q < steps_left p)
  Step-steps_left (enqueues p f open_pool) h = cc
  Step-steps_left (takes p i task rest idle front) h =
      let now = changed p.workers i waiting (busy task) idle in
      (h, omega (arith, now, ap length front))
  Step-steps_left (finishes p i task at) h =
      let now = changed p.workers i (busy task) waiting at in (h, omega (arith, now))
  Step-steps_left (exits p i idle stopped none_left) h =
      let now = changed p.workers i waiting exited idle in (h, omega (arith, now))
  Step-steps_left (stops p once) h = cc
  Step-steps_left (waits (sleeps p i idle open_pool empty)) h = cc
  Step-steps_left (waits (notifies p i n sleeper calls)) h =
      let now = changed p.workers i asleep waiting sleeper in (h, omega (arith, now, calls))
  Step-steps_left (waits (notifies_nobody p n nobody calls)) h = (h, omega (arith, calls))
  Step-steps_left (waits (notifies_all p call)) h =
      (h, omega (arith, total-wake_all p.workers, ap call_left call))
  Step-steps_left (waits (wakes p i sleeper)) h =
      let now = changed p.workers i asleep waiting sleeper in (h, omega (arith, now))

  Steps-bounded : {k : ℕ} {p q : ThreadPool A} → Steps k p q → p.stop ≡ true → k ≤ steps_left p
  Steps-bounded none_more h = omega arith
  Steps-bounded (first s more) h =
      let (h', fewer) = Step-steps_left s h in let ih = Steps-bounded more h' in omega arith

  -- Any step but a sleeper's waking without a call, on which nobody can count.
  abbrev pub Due : {p q : ThreadPool A} → Step p q → Type 0
  Due (waits (wakes p i sleeper)) = ⊥
  Due _ = Unit {0}

  pub data Place (ws : List (Worker A)) : Type 0 where
    one_waits : (i : ℕ) → get_elem? ws i ≡ some waiting → Place ws
    one_sleeps : (i : ℕ) → get_elem? ws i ≡ some asleep → Place ws
    one_works : (i : ℕ) (task : A) → get_elem? ws i ≡ some (busy task) → Place ws
    all_gone : ws ≡ replicate (length ws) exited → Place ws

  place : (ws : List (Worker A)) → Place ws
  place [] = all_gone refl
  place (waiting ∷ ws) = one_waits 0 refl
  place (asleep ∷ ws) = one_sleeps 0 refl
  place (busy task ∷ ws) = one_works 0 task refl
  place (exited ∷ ws) = elim (place ws) [
    | one_waits i at ↦ one_waits (suc i) at
    | one_sleeps i at ↦ one_sleeps (suc i) at
    | one_works i task at ↦ one_works (suc i) task at
    | all_gone gone ↦ all_gone (ap (λ vs. exited ∷ vs) gone)
  ]

  abbrev pub DueStep : ThreadPool A → Type 0
  DueStep p = (q : ThreadPool A) × (step : Step p q) × Due step

  from_queue :
      (p : ThreadPool A) (i : ℕ)
      → get_elem? p.workers i ≡ some waiting
      → p.stop ≡ true
      → (ts : List A) → p.tasks ≡ ts
      → DueStep p
  from_queue p i idle h [] e = (exit_worker i p, exits p i idle h e, tt)
  from_queue p i idle h (task ∷ rest) e = (take_task i task rest p, takes p i task rest idle e, tt)

  progress :
      {n : ℕ} {p : ThreadPool A}
      → PoolInv n p
      → p.stop ≡ true
      → (p.workers ≡ replicate n exited) ⊎ DueStep p
  progress {n} {p} inv h = elim (place p.workers) [
    | one_waits i idle ↦ inr (from_queue p i idle h p.tasks refl)
    | one_sleeps i sleeper ↦
        inr (notify_all p, waits (notifies_all p ((inv.roused i sleeper).1 h)), tt)
    | one_works i task at ↦ inr (finish_task i task p, finishes p i task at, tt)
    | all_gone gone ↦ inl (gone ∙ ap (λ k. replicate k exited) inv.size)
  ]

  running-exited : (n : ℕ) → running {A = A} (replicate n exited) ≡ []
  running-exited zero = refl
  running-exited (suc n) = running-exited n

  all_done :
      {n : ℕ} {p : ThreadPool A}
      → PoolInv (suc n) p
      → p.workers ≡ replicate (suc n) exited
      → Perm p.enqueued p.finished
  all_done {n} {p} inv gone =
      let none_left = (inv.returned 0 (rw gone refl)).1 in
      let all_started : p.started ≡ p.enqueued =
        sym (append-nil p.started) ∙ ap (λ ts. p.started ++ ts) (sym none_left) ∙ inv.order in
      let all_finished : p.finished ++ running p.workers ≡ p.finished =
        ap (λ ws. p.finished ++ running ws) gone
        ∙ ap (λ ts. p.finished ++ ts) (running-exited (suc n))
        ∙ append-nil p.finished in
      rw (← all_started) (rw (← all_finished) inv.placed)

  -- Once a pool of at least one thread is stopped, in any state that it can reach: no run of its
  -- threads is longer than twice the tasks left, the workers' own steps and the calls of notify_one and
  -- notify_all still to be made; while a worker has not returned, some thread can take a step that is
  -- no waking of a sleeper without a call; and when all have returned, every task ever enqueued was
  -- finished exactly once. So the joins of the destructor return, if the tasks do.
  pub shutdown :
      (n : ℕ) {p : ThreadPool A}
      → Reach (construct (suc n)) p
      → p.stop ≡ true
      → ((k : ℕ) (q : ThreadPool A) → Steps k p q → k ≤ steps_left p)
        × ((p.workers ≡ replicate (suc n) exited) ⊎ DueStep p)
        × (p.workers ≡ replicate (suc n) exited → Perm p.enqueued p.finished)
  shutdown n r h = (
    λ k q steps. Steps-bounded steps h,
    progress {n = suc n} (Reach-PoolInv r) h,
    all_done {n = n} (Reach-PoolInv r),
  )
