-- ===== src/Server/Running/Crowd.antt =====
-- More clients than the pool of src/server/server.hpp has workers.
use xyzwhiteboard.Base.{
  ◌∙◌, ℕ, zero, suc, ◌<◌, some, List, [], ◌∷◌, ◌≡◌, refl, ap, arith, length, get_elem?,
}
use xyzwhiteboard.Server.Mongo.{Mongo}
use xyzwhiteboard.Server.State.{Host}
use xyzwhiteboard.Server.ThreadPool.{
  ThreadPool, Worker, waiting, asleep, busy, exited, running, wake_all, Wait, sleeps, notifies,
  notifies_nobody, notifies_all, wakes,
}
use xyzwhiteboard.Server.ThreadPool.Order.{Reach-PoolInv}
use xyzwhiteboard.Server.Running.{
  Running, num_threads, construct, Step, accepts, fails, begins, reads, acts, ends, waits, stops,
  exits, Reach,
}
use xyzwhiteboard.Server.Running.Served.{Wait-started, running_few, Reach-Inv}

waiting_room :
    (ws : List (Worker ℕ)) (i : ℕ) → get_elem? ws i ≡ some waiting → length (running ws) < length ws
waiting_room [] i h = cc
waiting_room (asleep ∷ ws) zero h = cc
waiting_room (asleep ∷ ws) (suc i) h = omega (arith, waiting_room ws i h)
waiting_room (waiting ∷ ws) zero h = omega (arith, running_few ws)
waiting_room (busy t ∷ ws) zero h = cc
waiting_room (exited ∷ ws) zero h = cc
waiting_room (waiting ∷ ws) (suc i) h = omega (arith, waiting_room ws i h)
waiting_room (busy t ∷ ws) (suc i) h = omega (arith, waiting_room ws i h)
waiting_room (exited ∷ ws) (suc i) h = omega (arith, waiting_room ws i h)

bed_room :
    (ws : List (Worker ℕ)) (i : ℕ) → get_elem? ws i ≡ some asleep → length (running ws) < length ws
bed_room [] i h = cc
bed_room (waiting ∷ ws) zero h = cc
bed_room (asleep ∷ ws) zero h = omega (arith, running_few ws)
bed_room (busy t ∷ ws) zero h = cc
bed_room (exited ∷ ws) zero h = cc
bed_room (waiting ∷ ws) (suc i) h = omega (arith, bed_room ws i h)
bed_room (asleep ∷ ws) (suc i) h = omega (arith, bed_room ws i h)
bed_room (busy t ∷ ws) (suc i) h = omega (arith, bed_room ws i h)
bed_room (exited ∷ ws) (suc i) h = omega (arith, bed_room ws i h)

wake_all-full : (ws : List (Worker ℕ)) → length (running ws) ≡ length ws → wake_all ws ≡ ws
wake_all-full [] h = refl
wake_all-full (waiting ∷ ws) h = absurd (omega (arith, h, running_few ws))
wake_all-full (asleep ∷ ws) h = absurd (omega (arith, h, running_few ws))
wake_all-full (busy t ∷ ws) h =
    let rest : length (running ws) ≡ length ws = omega (arith, h) in
    ap (λ (vs : List (Worker ℕ)). busy t ∷ vs) (wake_all-full ws rest)
wake_all-full (exited ∷ ws) h = absurd (omega (arith, h, running_few ws))

Wait-workers :
    {p q : ThreadPool ℕ}
    → Wait p q
    → length (running p.workers) ≡ length p.workers
    → q.workers ≡ p.workers
Wait-workers (sleeps p i idle open_pool empty) full =
    absurd (let room = waiting_room p.workers i idle in omega arith)
Wait-workers (notifies p i n sleeper calls) full =
    absurd (let room = bed_room p.workers i sleeper in omega arith)
Wait-workers (notifies_nobody p n nobody calls) full = refl
Wait-workers (notifies_all p call) full = wake_all-full p.workers full
Wait-workers (wakes p i sleeper) full =
    absurd (let room = bed_room p.workers i sleeper in omega arith)

module _ (M : Mongo) (host : Host) where
  -- A step in which no connection ends.
  abbrev pub Quiet : {p q : Running M.Db} → Step M host p q → Type 0
  Quiet (ends r i socket at) = ⊥
  Quiet _ = Unit {0}

  pub data Meanwhile (r : Running M.Db) : Running M.Db → Type 0 where
    now : Meanwhile r r
    then_quiet :
        {p q : Running M.Db} → Meanwhile r p → (step : Step M host p q) → Quiet step → Meanwhile r q

  Full : Running M.Db → Type 0
  Full r = length (running r.pool.workers) ≡ length r.pool.workers

  Held : Running M.Db → Running M.Db → Type 0
  Held p q = (q.pool.started ≡ p.pool.started) × (q.pool.workers ≡ p.pool.workers)

  Step-Held : {p q : Running M.Db} (step : Step M host p q) → Quiet step → Full p → Held p q
  unfolding Full Held
  Step-Held (accepts r socket h) quiet full = (refl, refl)
  Step-Held (fails r h) quiet full = (refl, refl)
  Step-Held (begins r i socket rest idle front) quiet full =
      absurd (let room = waiting_room r.pool.workers i idle in omega arith)
  Step-Held (reads r i socket packet at) quiet full = (refl, refl)
  Step-Held (acts r i n socket packet s at came act) quiet full = (refl, refl)
  Step-Held (waits r pool wait) quiet full = (Wait-started wait, Wait-workers wait full)
  Step-Held (ends r i socket at) quiet full = absurd quiet
  Step-Held (stops r closed once) quiet full = (refl, refl)
  Step-Held (exits r i idle stopped none_left) quiet full =
      absurd (let room = waiting_room r.pool.workers i idle in omega arith)

  Meanwhile-Held : {p q : Running M.Db} → Meanwhile p q → Full p → Held p q
  unfolding Full Held
  Meanwhile-Held now full = (refl, refl)
  Meanwhile-Held (then_quiet before step quiet) full =
      let (started, workers) = Meanwhile-Held before full in
      let (started', workers') = Step-Held step quiet (rw workers full) in
      (started' ∙ started, workers' ∙ workers)

  -- From a state that a new server can reach and in which five connections are in the workers: until
  -- one of the five ends or throws, no other connection is begun, and the five stay in their workers,
  -- however many are accepted and whatever packets come in.
  pub sixth_waits :
      {db : M.Db} {r q : Running M.Db}
      → Reach M host (construct db) r
      → length (running r.pool.workers) ≡ 5
      → Meanwhile r q
      → (q.pool.started ≡ r.pool.started) × (q.pool.workers ≡ r.pool.workers)
  unfolding Full Held
  sixth_waits {db} {r} {q} reach five meanwhile =
      let pool = Reach-PoolInv {n = num_threads} (Reach-Inv M host reach).pool in
      Meanwhile-Held meanwhile (omega (arith, pool.size))
