-- ===== src/Server/Connection/Accounts.antt =====
-- The accounts under every interleaving of packets, with the documented behaviour of the database.
use xyzwhiteboard.Base.{ℕ, true, List, ◌≡◌, refl, Option-cases, Bool-cases, inl, inr}
use xyzwhiteboard.Base.Fail.{Action}
use xyzwhiteboard.Action.{PacketMessage, action_of, get_register_request}
use xyzwhiteboard.Server.Mongo.{Mongo, Documented, Operator, conflicting, with_username}
use xyzwhiteboard.Server.State.{
  reliable, shared, Server, Host, send_packet, draw, query, modify_sessions, run,
}
use xyzwhiteboard.Server.Sessions.{Sessions}
use xyzwhiteboard.Server.Users.{handle_assign_user_id, handle_register_request}
use xyzwhiteboard.Server.Users.Accounts.{UsersInv, next_id}
use xyzwhiteboard.Server.Users.Register.{
  Accounts, joined-Accounts, anonymous, assign_lem, registered, register_lem, register_taken,
}
use xyzwhiteboard.Server.Elements.Keeps.{broadcast-Keeps}
use xyzwhiteboard.Server.Keeps.{Keeps, Both, kept}
use xyzwhiteboard.Server.Stable.{Stable}
use xyzwhiteboard.Server.Connection.{serve}
use xyzwhiteboard.Server.Connection.Keeps.{serve-Keeps}
use xyzwhiteboard.Server.Connection.Writes.{serve-Alike}

module _ (M : Mongo) (D : Documented M) (host : Host) where
  abbrev Kept : Server M.Db → Type 0
  Kept s = Accounts M D host s

  -- An action of the database that leaves the users and the sequence alone.
  same_users :
      {A : Type 0} (m : Action M.Db A)
      → ((db : M.Db) → D.users (m db).1 ≡ D.users db)
      → ((db : M.Db) → D.sequence (m db).1 ≡ D.sequence db)
      → Keeps (Both Kept) (query m) (query m)
  unfolding run
  same_users m users sequence = kept Kept _ (λ s h. rw (users s.db, sequence s.db) h)

  updates :
      (o : M.Oid) (ops : List Operator)
      → Keeps (Both Kept) (query (M.update_whiteboard o ops)) (query (M.update_whiteboard o ops))
  updates o ops = elim (Bool-cases (conflicting ops)) [
    | inl refused ↦
        same_users _ (λ db. rw (D.update_conflict o ops db refused) refl)
          (λ db. rw (D.update_conflict o ops db refused) refl)
    | inr fine ↦
        same_users _ (λ db. rw (D.update_lem o ops db fine) (D.users-updated db o ops))
          (λ db. rw (D.update_lem o ops db fine) (D.sequence-updated db o ops))
  ]

  finds :
      (o : M.Oid) → Keeps (Both Kept) (query (M.find_whiteboard o)) (query (M.find_whiteboard o))
  finds o = same_users _ (λ db. rw (D.find_lem o db) refl) (λ db. rw (D.find_lem o db) refl)

  sends :
      (socket : ℕ) (p : _)
      → Keeps
          (Both Kept)
          (send_packet (reliable host) socket p)
          (send_packet (reliable host) socket p)
  unfolding run
  sends socket p = kept Kept _ (λ s h. h)

  draws : (f : ℕ → ℕ) → Keeps (Both Kept) (draw f) (draw f)
  unfolding run
  draws f = kept Kept _ (λ s h. h)

  moves : (f : Sessions → Sessions) → Keeps (Both Kept) (modify_sessions f) (modify_sessions f)
  unfolding run
  moves f = kept Kept _ (λ s h. h)

  -- An action that leaves the state alone.
  looks :
      {A : Type 0} (m : Action (Server M.Db) A)
      → ((s : Server M.Db) → (m s).1 ≡ s)
      → Keeps (Both Kept) m m
  looks m same = kept Kept m (λ s h. rw (same s) h)

  assigns :
      (socket : ℕ)
      → Keeps
          (Both Kept)
          (handle_assign_user_id M (reliable host) socket)
          (handle_assign_user_id M (reliable host) socket)
  assigns socket = kept Kept _ (λ s h. rw (assign_lem M D host socket s h) (
      joined-Accounts M D host s (anonymous M D host (next_id (D.sequence s.db))) h refl
        (λ named. absurd (named refl))))

  registers :
      (packet : PacketMessage) (socket : ℕ)
      → Keeps
          (Both Kept)
          (handle_register_request M (reliable host) packet socket)
          (handle_register_request M (reliable host) packet socket)
  registers packet socket = kept Kept _ (λ s h.
      elim (Option-cases
        (with_username (get_register_request (action_of packet)).username (D.users s.db))) [
          | inl new ↦ rw (register_lem M D host packet socket s h new) (
              joined-Accounts M D host s
                (registered M D host (get_register_request (action_of packet)) s) h refl (λ _. new))
          | inr (u, taken) ↦ rw (register_taken M D host packet socket s u taken) h
        ])

  stable :
      (socket : ℕ) (packet : PacketMessage)
      → Stable M (reliable host) (λ sent k m. true) (Both Kept) socket packet
  unfolding run
  stable socket packet = record {
    sends = λ p _. sends socket p;
    draws = draws;
    finds = finds;
    inserts = λ d.
        same_users _ (λ db. rw (D.insert_lem d db) (D.users-inserted db d))
          (λ db. rw (D.insert_lem d db) (D.sequence-inserted db d));
    updates = updates;
    deletes = λ o.
        same_users _ (λ db. rw (D.delete_lem o db) (D.users-deleted db o))
          (λ db. rw (D.delete_lem o db) (D.sequence-deleted db o));
    finds_user = λ name.
        same_users _ (λ db. rw (D.find_user_lem name db) refl)
          (λ db. rw (D.find_user_lem name db) refl);
    connects = λ k. moves _;
    disconnects = λ k. moves _;
    assigns = assigns socket;
    registers = registers packet socket;
    tests = λ k. looks (shared k) (λ s. refl);
    broadcasts =
        broadcast-Keeps M (reliable host) _ sends draws finds (λ k sockets. moves _)
          (λ k. looks (shared k) (λ s. refl)) (λ k. looks _ (λ s. refl));
  }

  -- From a state in which the users' ids are below the next one, no two users have one id and no
  -- two have one name, the empty name of anonymous users aside, the server reaches only such
  -- states, whatever packets come in on whatever sockets, in whatever order of whole handlers, while
  -- the database answers as documented.
  pub serve-Accounts :
      (events : List (ℕ × PacketMessage)) (s : Server M.Db)
      → UsersInv (D.sequence s.db) (D.users s.db)
      → UsersInv (D.sequence (serve M host events s).db) (D.users (serve M host events s).db)
  serve-Accounts events s h =
      rw ((serve-Alike host M events s).db)
        (serve-Keeps events (λ n socket packet _. stable socket packet) s s (refl, h)).1
