-- ===== src/Server/Accept.antt =====
-- src/server/server.cpp: accept_connections. What comes in is a list of connections.
use xyzwhiteboard.Base.{
  ℕ, suc, ◌+◌, length, arith, String, Bool, true, false, List, [], ◌∷◌, ◌++◌, map, ◌≡◌, refl, ap,
  sym, ◌∙◌,
}
use mathlib.Core.List.{append_assoc, append-nil}
use xyzwhiteboard.Server.ThreadPool.{ThreadPool, enqueue}

-- How one pass ends: accept and handshake return, or one of them throws.
pub data Arrival : Type 0 where
  shakes_hands : ℕ → Arrival
  throws : String → Arrival

-- The loop, and whether it still accepts. The `try` block is around the loop.
unfoldable pub accept_connections : List Arrival → ThreadPool ℕ → Bool × ThreadPool ℕ
accept_connections [] pool = (true, pool)
accept_connections (shakes_hands socket ∷ arrivals) pool =
    accept_connections arrivals (enqueue socket pool)
accept_connections (throws e ∷ arrivals) pool = (false, pool)

accepted :
    (sockets : List ℕ) (arrivals : List Arrival) (pool : ThreadPool ℕ)
    → accept_connections (map shakes_hands sockets ++ arrivals) pool
      ≡ accept_connections arrivals (record pool {
        tasks = pool.tasks ++ sockets;
        notifying = pool.notifying + length sockets;
        enqueued = pool.enqueued ++ sockets;
      })
unfolding accept_connections
accepted [] arrivals pool =
    let none : pool.notifying + 0 ≡ pool.notifying = omega arith in
    rw (append-nil pool.tasks, append-nil pool.enqueued, none) refl
accepted (socket ∷ sockets) arrivals pool =
    accepted sockets arrivals (enqueue socket pool)
    ∙ (let one : suc pool.notifying + length sockets ≡ pool.notifying + length (socket ∷ sockets) =
          omega arith in
        rw (append_assoc pool.tasks, append_assoc pool.enqueued, one) refl)

-- The connections that shake hands are enqueued in their order, each with a call of notify_one, up
-- to the first that fails to: from then on the server accepts nobody.
pub accept_connections-throws :
    (sockets : List ℕ) (e : String) (arrivals : List Arrival) (pool : ThreadPool ℕ)
    → (accept_connections (map shakes_hands sockets) pool ≡ (
      true,
      record pool {
        tasks = pool.tasks ++ sockets;
        notifying = pool.notifying + length sockets;
        enqueued = pool.enqueued ++ sockets;
      },
    ))
      × (accept_connections (map shakes_hands sockets ++ throws e ∷ arrivals) pool ≡ (
        false,
        record pool {
          tasks = pool.tasks ++ sockets;
          notifying = pool.notifying + length sockets;
          enqueued = pool.enqueued ++ sockets;
        },
      ))
unfolding accept_connections
accept_connections-throws sockets e arrivals pool = (
  ap (λ (ins : List Arrival). accept_connections ins pool)
        (sym (append-nil (map shakes_hands sockets)))
      ∙ accepted sockets [] pool,
  accepted sockets (throws e ∷ arrivals) pool,
)
