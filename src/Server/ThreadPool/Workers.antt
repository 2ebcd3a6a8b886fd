-- ===== src/Server/ThreadPool/Workers.antt =====
-- The workers of src/server/thread_pool.hpp one by one: which are in a task, and how many are awake.
use mathlib.Core.List.{Perm}
use mathlib.Core.List.Perm as P
use xyzwhiteboard.Base.{
  ℕ, zero, suc, ◌+◌, Bool, true, false, some, List, [], ◌∷◌, ◌≡◌, ◌≢◌, refl, arith, ap, sym, ◌∙◌,
  length, get_elem?, set, replicate,
}
use xyzwhiteboard.Server.ThreadPool.{Worker, waiting, asleep, busy, exited, running, wake_all}

module _ {A : Type 0} where
  abbrev pub in_task : Worker A → Bool
  in_task (busy task) = true
  in_task _ = false

  running-idle :
      (w : Worker A) (ws : List (Worker A)) → in_task w ≡ false → running (w ∷ ws) ≡ running ws
  running-idle waiting ws h = refl
  running-idle asleep ws h = refl
  running-idle (busy task) ws h = cc
  running-idle exited ws h = refl

  running-cons :
      (w : Worker A) (vs ws : List (Worker A))
      → running vs ≡ running ws
      → running (w ∷ vs) ≡ running (w ∷ ws)
  running-cons waiting vs ws h = h
  running-cons asleep vs ws h = h
  running-cons (busy task) vs ws h = ap (λ ts. task ∷ ts) h
  running-cons exited vs ws h = h

  -- A worker that is in no task goes to another such place.
  pub running-set :
      (ws : List (Worker A)) (i : ℕ) (w v : Worker A)
      → get_elem? ws i ≡ some w
      → in_task w ≡ false
      → in_task v ≡ false
      → running (set ws i v) ≡ running ws
  running-set [] i w v h idle idle' = cc
  running-set (x ∷ ws) zero w v h idle idle' =
      let e : w ≡ x = cc in
      running-idle v ws idle' ∙ sym (running-idle x ws (ap in_task (sym e) ∙ idle))
  running-set (x ∷ ws) (suc i) w v h idle idle' =
      running-cons x (set ws i v) ws (running-set ws i w v h idle idle')

  pub running-take :
      (ws : List (Worker A)) (i : ℕ) (task : A)
      → get_elem? ws i ≡ some waiting
      → Perm (running (set ws i (busy task))) (task ∷ running ws)
  running-take [] i task h = cc
  running-take (waiting ∷ ws) zero task h = P.refl _
  running-take (asleep ∷ ws) zero task h = cc
  running-take (busy t ∷ ws) zero task h = cc
  running-take (exited ∷ ws) zero task h = cc
  running-take (waiting ∷ ws) (suc i) task h = running-take ws i task h
  running-take (asleep ∷ ws) (suc i) task h = running-take ws i task h
  running-take (busy t ∷ ws) (suc i) task h =
      P.trans (P.cons t (running-take ws i task h)) (P.swap task t (running ws))
  running-take (exited ∷ ws) (suc i) task h = running-take ws i task h

  pub running-finish :
      (ws : List (Worker A)) (i : ℕ) (task : A)
      → get_elem? ws i ≡ some (busy task)
      → Perm (task ∷ running (set ws i waiting)) (running ws)
  running-finish [] i task h = cc
  running-finish (waiting ∷ ws) zero task h = cc
  running-finish (asleep ∷ ws) zero task h = cc
  running-finish (busy t ∷ ws) zero task h = let e : t ≡ task = cc in rw e (P.refl _)
  running-finish (exited ∷ ws) zero task h = cc
  running-finish (waiting ∷ ws) (suc i) task h = running-finish ws i task h
  running-finish (asleep ∷ ws) (suc i) task h = running-finish ws i task h
  running-finish (busy t ∷ ws) (suc i) task h =
      P.trans (P.swap t task (running (set ws i waiting))) (P.cons t (running-finish ws i task h))
  running-finish (exited ∷ ws) (suc i) task h = running-finish ws i task h

  pub running-replicate : (n : ℕ) → running {A = A} (replicate n waiting) ≡ []
  running-replicate zero = refl
  running-replicate (suc n) = running-replicate n

  pub running-wake_all : (ws : List (Worker A)) → running (wake_all ws) ≡ running ws
  running-wake_all [] = refl
  running-wake_all (waiting ∷ ws) = running-wake_all ws
  running-wake_all (asleep ∷ ws) = running-wake_all ws
  running-wake_all (busy t ∷ ws) = ap (λ ts. t ∷ ts) (running-wake_all ws)
  running-wake_all (exited ∷ ws) = running-wake_all ws

  pub length-wake_all : (ws : List (Worker A)) → length (wake_all ws) ≡ length ws
  length-wake_all [] = refl
  length-wake_all (waiting ∷ ws) = ap suc (length-wake_all ws)
  length-wake_all (asleep ∷ ws) = ap suc (length-wake_all ws)
  length-wake_all (busy t ∷ ws) = ap suc (length-wake_all ws)
  length-wake_all (exited ∷ ws) = ap suc (length-wake_all ws)

  pub none_asleep : (ws : List (Worker A)) (i : ℕ) → get_elem? (wake_all ws) i ≢ some asleep
  none_asleep [] i = λ h. cc
  none_asleep (waiting ∷ ws) zero = λ h. cc
  none_asleep (asleep ∷ ws) zero = λ h. cc
  none_asleep (busy t ∷ ws) zero = λ h. cc
  none_asleep (exited ∷ ws) zero = λ h. cc
  none_asleep (waiting ∷ ws) (suc i) = none_asleep ws i
  none_asleep (asleep ∷ ws) (suc i) = none_asleep ws i
  none_asleep (busy t ∷ ws) (suc i) = none_asleep ws i
  none_asleep (exited ∷ ws) (suc i) = none_asleep ws i

  pub exited-wake_all :
      (ws : List (Worker A)) (i : ℕ)
      → get_elem? (wake_all ws) i ≡ some exited
      → get_elem? ws i ≡ some exited
  exited-wake_all [] i h = h
  exited-wake_all (waiting ∷ ws) zero h = cc
  exited-wake_all (asleep ∷ ws) zero h = cc
  exited-wake_all (busy t ∷ ws) zero h = cc
  exited-wake_all (exited ∷ ws) zero h = refl
  exited-wake_all (waiting ∷ ws) (suc i) h = exited-wake_all ws i h
  exited-wake_all (asleep ∷ ws) (suc i) h = exited-wake_all ws i h
  exited-wake_all (busy t ∷ ws) (suc i) h = exited-wake_all ws i h
  exited-wake_all (exited ∷ ws) (suc i) h = exited-wake_all ws i h

  -- A worker that is where the changed one has not gone was there before.
  pub set-other :
      (ws : List (Worker A)) (i j : ℕ) (w v : Worker A)
      → get_elem? (set ws i w) j ≡ some v
      → w ≢ v
      → get_elem? ws j ≡ some v
  set-other [] i j w v h k = h
  set-other (x ∷ ws) zero zero w v h k = absurd (k (cc))
  set-other (x ∷ ws) zero (suc j) w v h k = h
  set-other (x ∷ ws) (suc i) zero w v h k = h
  set-other (x ∷ ws) (suc i) (suc j) w v h k = set-other ws i j w v h k

  pub length-set : (ws : List (Worker A)) (i : ℕ) (w : Worker A) → length (set ws i w) ≡ length ws
  length-set [] i w = refl
  length-set (x ∷ ws) zero w = refl
  length-set (x ∷ ws) (suc i) w = ap suc (length-set ws i w)

  pub length-replicate : (n : ℕ) (w : Worker A) → length (replicate n w) ≡ n
  length-replicate zero w = refl
  length-replicate (suc n) w = ap suc (length-replicate n w)

  pub all_waiting :
      (n i : ℕ) (w : Worker A) → w ≢ waiting → get_elem? (replicate n waiting) i ≢ some w
  all_waiting zero i w k = λ h. cc
  all_waiting (suc n) zero w k = λ h. k cc
  all_waiting (suc n) (suc i) w k = all_waiting n i w k

-- A sum over the workers.
module _ {A : Type 0} (cost : Worker A → ℕ) where
  abbrev pub total : List (Worker A) → ℕ
  total [] = 0
  total (w ∷ ws) = cost w + total ws

  pub total-set :
      (ws : List (Worker A)) (i : ℕ) (w v : Worker A)
      → get_elem? ws i ≡ some w
      → total (set ws i v) + cost w ≡ total ws + cost v
  total-set [] i w v h = cc
  total-set (x ∷ ws) zero w v h = let e : cost x ≡ cost w = ap cost cc in omega (arith, e)
  total-set (x ∷ ws) (suc i) w v h = omega (arith, total-set ws i w v h)

module _ {A : Type 0} where
  abbrev is_awake : Worker A → ℕ
  is_awake waiting = 1
  is_awake _ = 0

  -- The number of workers at the test of their predicate.
  abbrev pub awake : List (Worker A) → ℕ
  awake ws = total is_awake ws

  pub awake-set :
      (ws : List (Worker A)) (i : ℕ) (w v : Worker A)
      → get_elem? ws i ≡ some w
      → awake (set ws i v) + is_awake w ≡ awake ws + is_awake v
  awake-set ws i w v h = total-set is_awake ws i w v h
