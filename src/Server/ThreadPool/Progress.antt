-- ===== src/Server/ThreadPool/Progress.antt =====
-- A task in the queue of src/server/thread_pool.hpp can start unless every worker is in a task.
use xyzwhiteboard.Base.{
  ℕ, zero, suc, ◌+◌, ◌≤◌, arith, some, List, [], ◌∷◌, ◌++◌, ◌≡◌, ◌≢◌, ◌⊎◌, inl, inr, refl, ap, sym,
  ◌∙◌, length, get_elem?, set, ◌<◌,
}
use xyzwhiteboard.Server.ThreadPool.{
  Worker, waiting, asleep, busy, exited, ThreadPool, construct, Step, takes, take_task, notify_one,
  Reach, running,
}
use xyzwhiteboard.Server.ThreadPool.Workers.{awake}
use xyzwhiteboard.Server.ThreadPool.Order.{PoolInv, Reach-PoolInv}

module _ {A : Type 0} where
  -- A worker is at its test; or some worker sleeps while none is; or all are in tasks.
  awake_asleep_or_full :
      (ws : List (Worker A))
      → ((i : ℕ) → get_elem? ws i ≢ some exited)
      → ((i : ℕ) × (get_elem? ws i ≡ some waiting))
        ⊎ ((awake ws ≡ 0)
            × (((i : ℕ) × (get_elem? ws i ≡ some asleep)) ⊎ (length (running ws) ≡ length ws)))
  awake_asleep_or_full [] h = inr (refl, inr refl)
  awake_asleep_or_full (waiting ∷ ws) h = inl (0, refl)
  awake_asleep_or_full (exited ∷ ws) h = absurd (h 0 refl)
  awake_asleep_or_full (asleep ∷ ws) h = elim (awake_asleep_or_full ws (λ i. h (suc i))) [
    | inl (i, idle) ↦ inl (suc i, idle)
    | inr (none_awake, _) ↦ inr (omega (arith, none_awake), inl (0, refl))
  ]
  awake_asleep_or_full (busy t ∷ ws) h = elim (awake_asleep_or_full ws (λ i. h (suc i))) [
    | inl (i, idle) ↦ inl (suc i, idle)
    | inr (none_awake, inl (i, sleeper)) ↦ inr (omega (arith, none_awake), inl (suc i, sleeper))
    | inr (none_awake, inr full) ↦ inr (omega (arith, none_awake), inr (ap suc full))
  ]

  nonempty : {task : A} {rest : List A} → task ∷ rest ≢ []
  nonempty = λ e. cc

  -- A worker starts the first task of the queue in the next step.
  abbrev pub Starts : A → List A → ThreadPool A → Type 0
  Starts task rest p =
      (q : ThreadPool A) × Step p q × (q.started ≡ p.started ++ task ∷ []) × (q.tasks ≡ rest)

  -- A call of notify_one is still to be made, and it can wake a worker that then starts the task.
  abbrev pub Rouses : A → List A → ThreadPool A → Type 0
  Rouses task rest p =
      (i : ℕ) × (n : ℕ) × (get_elem? p.workers i ≡ some asleep)
      × (p.notifying ≡ suc n)
      × Starts task rest (notify_one i n p)

  get-set :
      (ws : List (Worker A)) (i : ℕ) (w v : Worker A)
      → get_elem? ws i ≡ some w
      → get_elem? (set ws i v) i ≡ some v
  get-set [] i w v h = cc
  get-set (x ∷ ws) zero w v h = refl
  get-set (x ∷ ws) (suc i) w v h = get-set ws i w v h

  rouses :
      (task : A) (rest : List A) (p : ThreadPool A) (i n : ℕ)
      → p.tasks ≡ task ∷ rest
      → get_elem? p.workers i ≡ some asleep
      → p.notifying ≡ n
      → 0 < n
      → Rouses task rest p
  rouses task rest p i zero front sleeper calls some_call = absurd (omega (arith, some_call))
  rouses task rest p i (suc n) front sleeper calls some_call = (
    i,
    n,
    sleeper,
    calls,
    (
      take_task i task rest (notify_one i n p),
      takes (notify_one i n p) i task rest (get-set p.workers i asleep waiting sleeper) front,
      refl,
      refl,
    ),
  )

  -- In every state that a new pool of n threads can reach, with a task at the front of the queue: a
  -- worker can start it in the next step; or a call of notify_one is still to be made, and it can wake a
  -- worker that can start the task in the step after; or n tasks are running. So the workers never all
  -- sleep on a queue that holds a task, once the calls have been made.
  pub front-Starts :
      {n : ℕ} {p : ThreadPool A} (task : A) (rest : List A)
      → Reach (construct n) p
      → p.tasks ≡ task ∷ rest
      → Starts task rest p ⊎ (Rouses task rest p ⊎ (length (running p.workers) ≡ n))
  front-Starts {n} {p} task rest r front =
      let inv : PoolInv n p = Reach-PoolInv r in
      elim (awake_asleep_or_full p.workers (λ i e. nonempty (sym front ∙ (inv.returned i e).1))) [
        | inl (i, idle) ↦ inl (take_task i task rest p, takes p i task rest idle front, refl, refl)
        | inr (none_awake, inl (i, sleeper)) ↦
            let few : length p.tasks ≤ awake p.workers + p.notifying = (inv.roused i sleeper).0 in
            inr (
              inl (
                rouses task rest p i p.notifying front sleeper refl
                  (omega (arith, few, none_awake, ap length front))))
        | inr (none_awake, inr full) ↦ inr (inr (full ∙ inv.size))
      ]
