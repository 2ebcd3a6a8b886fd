-- ===== src/Server/ThreadPool/Order.antt =====
-- Which tasks of src/server/thread_pool.hpp are where, in every state that a new pool can reach.
use mathlib.Core.List.{Perm, append_assoc, perm_append_singleton, perm_middle}
use mathlib.Core.List.Perm as P
use xyzwhiteboard.Base.{
  ℕ, suc, ◌+◌, ◌≤◌, arith, length-append, true, some, [], ◌∷◌, ◌++◌, ◌≡◌, refl, sym, ap, ◌∙◌,
  length, get_elem?, set,
}
use xyzwhiteboard.Server.ThreadPool.{
  waiting, asleep, busy, exited, notify_one, Wait, sleeps, notifies, notifies_nobody, notifies_all,
  wakes, waits, ThreadPool, construct, Step, enqueues, takes, finishes, exits, stops, Reach, here,
  later, running,
}
use xyzwhiteboard.Server.ThreadPool.Workers.{
  running-set, running-take, running-finish, running-replicate, running-wake_all, length-wake_all,
  none_asleep, exited-wake_all, set-other, length-set, length-replicate, all_waiting, awake,
  awake-set,
}

module _ {A : Type 0} where
  -- The number of workers stays; the tasks are started in the order in which they were enqueued;
  -- each task that was started is finished or with one worker; a worker has returned only if the
  -- pool is stopped and has no task left; while a worker sleeps, there are no more tasks in the queue
  -- than workers awake and calls of notify_one to be made, and a stopped pool has notify_all to call.
  pub record PoolInv (n : ℕ) (p : ThreadPool A) : Type 0 where
    pub size : length p.workers ≡ n
    pub order : p.started ++ p.tasks ≡ p.enqueued
    pub placed : Perm p.started (p.finished ++ running p.workers)
    pub returned : (i : ℕ) → get_elem? p.workers i ≡ some exited → (p.stop ≡ true) × (p.tasks ≡ [])
    pub roused :
        (i : ℕ)
        → get_elem? p.workers i ≡ some asleep
        → (length p.tasks ≤ awake p.workers + p.notifying)
          × (p.stop ≡ true → p.notifying_all ≡ true)

  construct-PoolInv : (n : ℕ) → PoolInv n (construct n)
  construct-PoolInv n = record {
    size = length-replicate n waiting;
    order = refl;
    placed = rw (running-replicate n) P.nil;
    returned = λ i h. absurd (all_waiting n i exited (λ e. cc) h);
    roused = λ i h. absurd (all_waiting n i asleep (λ e. cc) h);
  }

  -- A sleeper is awake again, with fewer calls to be made by one at most.
  awoken-PoolInv :
      {n : ℕ} (p : ThreadPool A) (i m : ℕ)
      → get_elem? p.workers i ≡ some asleep
      → p.notifying ≤ suc m
      → PoolInv n p
      → PoolInv n (notify_one i m p)
  awoken-PoolInv p i m sleeper fewer inv = record {
    size = length-set p.workers i waiting ∙ inv.size;
    order = inv.order;
    placed = rw (running-set p.workers i asleep waiting sleeper refl refl) inv.placed;
    returned = λ j h. inv.returned j (set-other p.workers i j waiting exited h (λ e. cc));
    roused = λ j h.
        let (few, told) = inv.roused j (set-other p.workers i j waiting asleep h (λ e. cc)) in
        (omega (arith, few, fewer, awake-set p.workers i asleep waiting sleeper), told);
  }

  Wait-PoolInv : {n : ℕ} {p q : ThreadPool A} → Wait p q → PoolInv n p → PoolInv n q
  Wait-PoolInv (sleeps p i idle open_pool empty) inv = record {
    size = length-set p.workers i asleep ∙ inv.size;
    order = inv.order;
    placed = rw (running-set p.workers i waiting asleep idle refl refl) inv.placed;
    returned = λ j h. inv.returned j (set-other p.workers i j asleep exited h (λ e. cc));
    roused = λ j h. (omega (arith, ap length empty), λ e. cc);
  }
  Wait-PoolInv (notifies p i m sleeper calls) inv =
      awoken-PoolInv p i m sleeper (omega (arith, calls)) inv
  Wait-PoolInv (notifies_nobody p m nobody calls) inv = record {
    size = inv.size;
    order = inv.order;
    placed = inv.placed;
    returned = inv.returned;
    roused = λ j h. absurd (nobody j h);
  }
  Wait-PoolInv (notifies_all p call) inv = record {
    size = length-wake_all p.workers ∙ inv.size;
    order = inv.order;
    placed = rw (running-wake_all p.workers) inv.placed;
    returned = λ j h. inv.returned j (exited-wake_all p.workers j h);
    roused = λ j h. absurd (none_asleep p.workers j h);
  }
  Wait-PoolInv (wakes p i sleeper) inv = awoken-PoolInv p i p.notifying sleeper (omega arith) inv

  Step-PoolInv : {n : ℕ} {p q : ThreadPool A} → Step p q → PoolInv n p → PoolInv n q
  Step-PoolInv (enqueues p f open_pool) inv = record {
    size = inv.size;
    order = sym (append_assoc p.started p.tasks (f ∷ [])) ∙ ap (λ ts. ts ++ f ∷ []) inv.order;
    placed = inv.placed;
    returned = λ i h. let r = inv.returned i h in cc;
    roused = λ i h.
        let (few, told) = inv.roused i h in
        (omega (arith, few, length-append p.tasks (f ∷ [])), told);
  }
  Step-PoolInv (takes p i task rest idle front) inv = record {
    size = length-set p.workers i (busy task) ∙ inv.size;
    order = append_assoc p.started (task ∷ []) rest ∙ (rw (← front) inv.order);
    placed = P.trans (P.append_right (task ∷ []) inv.placed) (
        rw (append_assoc p.finished (running p.workers) (task ∷ [])) (
          P.append_left p.finished (
            P.trans (perm_append_singleton task (running p.workers))
              (P.symm (running-take p.workers i task idle)))));
    returned = λ j h.
        let r = inv.returned j (set-other p.workers i j (busy task) exited h (λ e. cc)) in cc;
    roused = λ j h.
        let (few, told) = inv.roused j (set-other p.workers i j (busy task) asleep h (λ e. cc)) in
        (omega (arith, few, awake-set p.workers i waiting (busy task) idle, ap length front), told);
  }
  Step-PoolInv (finishes p i task at) inv = record {
    size = length-set p.workers i waiting ∙ inv.size;
    order = inv.order;
    placed = P.trans inv.placed (
        P.trans (P.append_left p.finished (P.symm (running-finish p.workers i task at)))
          (perm_middle p.finished (running (set p.workers i waiting))));
    returned = λ j h. inv.returned j (set-other p.workers i j waiting exited h (λ e. cc));
    roused = λ j h.
        let (few, told) = inv.roused j (set-other p.workers i j waiting asleep h (λ e. cc)) in
        (omega (arith, few, awake-set p.workers i (busy task) waiting at), told);
  }
  Step-PoolInv (exits p i idle stopped none_left) inv = record {
    size = length-set p.workers i exited ∙ inv.size;
    order = inv.order;
    placed = rw (running-set p.workers i waiting exited idle refl refl) inv.placed;
    returned = λ j h. (stopped, none_left);
    roused = λ j h.
        let (few, told) = inv.roused j (set-other p.workers i j exited asleep h (λ e. cc)) in
        (omega (arith, ap length none_left), told);
  }
  Step-PoolInv (stops p once) inv = record {
    size = inv.size;
    order = inv.order;
    placed = inv.placed;
    returned = λ j h. (refl, (inv.returned j h).1);
    roused = λ j h. ((inv.roused j h).0, λ e. refl);
  }
  Step-PoolInv (waits w) inv = Wait-PoolInv w inv

  -- In every state that a new pool of n threads can reach, whatever its threads do in whatever order,
  -- there are n workers, the tasks that were started and those in the queue are the enqueued ones in
  -- their order, each started task is finished or with exactly one worker, and a worker has returned
  -- only if the pool is stopped and its queue is empty. While a worker sleeps, the queue holds no more
  -- tasks than there are workers awake and calls of notify_one to be made, and if the pool is
  -- stopped, notify_all is still to be called.
  pub Reach-PoolInv : {n : ℕ} {p : ThreadPool A} → Reach (construct n) p → PoolInv n p
  Reach-PoolInv {n} here = construct-PoolInv n
  Reach-PoolInv (later r s) = Step-PoolInv s (Reach-PoolInv r)
