-- ===== src/Examples/Pool.antt =====
-- Uses of the theorems on src/server/thread_pool.hpp, and on the loop that fills it, at concrete pools.
use mathlib.Core.List.{Perm}
use xyzwhiteboard.Base.{ℕ, ◌≤◌, true, false, [], ◌∷◌, ◌++◌, ◌≡◌, ◌⊎◌, refl, length, map, replicate}
use xyzwhiteboard.Server.ThreadPool.{
  asleep, set_worker, waits, sleeps, ThreadPool, exited, construct, enqueue, take_task, stop_pool,
  enqueues, takes, stops, Reach, here, later, running,
}
use xyzwhiteboard.Server.ThreadPool.Order.{PoolInv, Reach-PoolInv}
use xyzwhiteboard.Server.ThreadPool.Progress.{Starts, Rouses, front-Starts}
use xyzwhiteboard.Server.ThreadPool.Shutdown.{Steps, steps_left, DueStep, shutdown}
use xyzwhiteboard.Server.Accept.{
  shakes_hands, throws, accept_connections, accept_connections-throws,
}

-- The first worker sleeps. Two tasks are enqueued, and the second worker takes the first of them.
abbrev dozing : ThreadPool ℕ
dozing = set_worker 0 asleep (construct 2)

abbrev filled : ThreadPool ℕ
filled = enqueue 8 (enqueue 7 dozing)

abbrev working : ThreadPool ℕ
working = take_task 1 7 (8 ∷ []) filled

reaches_working : Reach (construct 2) working
reaches_working =
    later
      (later
        (later (later here (waits (sleeps (construct 2) 0 refl refl refl)))
          (enqueues dozing 7 refl))
        (enqueues (enqueue 7 dozing) 8 refl))
      (takes filled 1 7 (8 ∷ []) refl refl)

Reach-PoolInv_example : PoolInv 2 working
Reach-PoolInv_example = Reach-PoolInv reaches_working

front-Starts_example :
    Starts 8 [] working ⊎ (Rouses 8 [] working ⊎ (length (running working.workers) ≡ 2))
front-Starts_example = front-Starts 8 [] reaches_working refl

-- The pool is destroyed after that.
abbrev stopped : ThreadPool ℕ
stopped = stop_pool working

reaches_stopped : Reach (construct 2) stopped
reaches_stopped = later reaches_working (stops working refl)

shutdown_example :
    ((k : ℕ) (q : ThreadPool ℕ) → Steps k stopped q → k ≤ steps_left stopped)
    × ((stopped.workers ≡ replicate 2 exited) ⊎ DueStep stopped)
    × (stopped.workers ≡ replicate 2 exited → Perm stopped.enqueued stopped.finished)
shutdown_example = shutdown 1 reaches_stopped refl

accept_connections-throws_example :
    (accept_connections (map shakes_hands (4 ∷ 5 ∷ [])) working ≡ (
      true,
      record working { tasks = 8 ∷ 4 ∷ 5 ∷ []; notifying = 4; enqueued = 7 ∷ 8 ∷ 4 ∷ 5 ∷ [] },
    ))
    × (accept_connections
          (map shakes_hands (4 ∷ 5 ∷ []) ++ throws "handshake" ∷ shakes_hands 6 ∷ [])
          working
        ≡ (
          false,
          record working { tasks = 8 ∷ 4 ∷ 5 ∷ []; notifying = 4; enqueued = 7 ∷ 8 ∷ 4 ∷ 5 ∷ [] },
        ))
accept_connections-throws_example =
    accept_connections-throws (4 ∷ 5 ∷ []) "handshake" (shakes_hands 6 ∷ []) working
