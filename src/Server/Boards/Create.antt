-- ===== src/Server/Boards/Create.antt =====
-- handle_create_whiteboard_request and handle_create_session_request of src/server/server.cpp.
use xyzwhiteboard.Base.{
  ℕ, ◌+◌, true, false, none, some, List, [], ◌∷◌, ◌++◌, ◌≡◌, ◌≢◌, refl, arith, ◌==◌,
}
use xyzwhiteboard.Base.Fail.{ok}
use xyzwhiteboard.Action.{
  PacketMessage, CreateSessionRequest, action_of, get_create_whiteboard, get_create_session,
}
use xyzwhiteboard.Server.Mongo.{Mongo, Documented, WhiteboardDoc, Operator, set_active_user_ids}
use xyzwhiteboard.Server.Mongo.Laws.{
  same_oid_refl, same_oid_ne, whiteboard-updated_self, whiteboard-updated_ne,
}
use xyzwhiteboard.Server.Sessions.{add_socket_to_whiteboard}
use xyzwhiteboard.Server.State.{reliable, Server, Host, action_response, run}
use xyzwhiteboard.Server.Users.Accounts.{next_id}
use xyzwhiteboard.Server.Users.Register.{Accounts, joined, anonymous, assign_lem, temp_id_packet}
use xyzwhiteboard.Server.Elements.{is_owner}
use xyzwhiteboard.Server.Boards.{
  user_or_assigned, handle_create_whiteboard_request, handle_create_session_request,
}

-- A whiteboard that was just made: no element, and no session.
abbrev pub blank : ℕ → ℕ → WhiteboardDoc
blank uid created_at = record {
  uid = some uid;
  elements = some [];
  created_at = created_at;
  active_user_ids = none;
}

pub ==_ne : (a b : ℕ) → a ≢ b → (a == b) ≡ false
==_ne a b h = ground arith

module _ (M : Mongo) (D : Documented M) (host : Host) (packet : PacketMessage) (socket : ℕ)
    (s : Server M.Db) where
  abbrev pub user : ℕ
  user = (get_create_whiteboard (action_of packet)).user_id

  -- The reply with the new whiteboard's id.
  abbrev pub created_packet : M.Db → ℕ × PacketMessage
  created_packet db =
      (socket, (action_response packet.packet_id true (M.oid_text (D.new_oid db))).packet)

  -- With sockets whose writes succeed: a known user's request stores a blank whiteboard of the user
  -- under a fresh id, answers with that id, which reads back, and leaves the other whiteboards
  -- alone.
  pub create_known :
      user ≢ 0
      → (handle_create_whiteboard_request M (reliable host) packet socket s ≡ (
        ok tt,
        record s {
          db = D.inserted s.db (blank user (host.now s.draws));
          sent = s.sent ++ created_packet s.db ∷ [];
          draws = s.draws + 1;
        },
      ))
        × (D.whiteboard (D.inserted s.db (blank user (host.now s.draws))) (D.new_oid s.db)
            ≡ some (blank user (host.now s.draws)))
        × (M.read_oid (M.oid_text (D.new_oid s.db)) ≡ ok (D.new_oid s.db))
        × ((o : M.Oid)
            → D.new_oid s.db ≢ o
            → D.whiteboard (D.inserted s.db (blank user (host.now s.draws))) o
              ≡ D.whiteboard s.db o)
  unfolding handle_create_whiteboard_request user_or_assigned run
  create_known known = (
    rw (==_ne user 0 known) (rw D.insert_lem refl),
    rw (D.whiteboard-inserted, same_oid_refl D (D.new_oid s.db)) refl,
    D.read-oid_text (D.new_oid s.db),
    λ o other. rw (D.whiteboard-inserted, same_oid_ne D _ o other) refl,
  )

  -- The database with the anonymous account.
  abbrev pub with_account : M.Db
  with_account = joined M D host s.db (anonymous M D host (next_id (D.sequence s.db)))

  -- With sockets whose writes succeed: with the accounts in order, an anonymous user's request
  -- first stores an anonymous account under the next id and announces the id, and then makes a
  -- whiteboard that belongs to that id.
  pub create_anonymous :
      Accounts M D host s
      → user ≡ 0
      → handle_create_whiteboard_request M (reliable host) packet socket s ≡ (
        ok tt,
        record s {
          db = D.inserted with_account (blank (next_id (D.sequence s.db)) (host.now (s.draws + 1)));
          sent =
              (s.sent
                ++ (socket, temp_id_packet M D host (host.rand s.draws) (next_id (D.sequence s.db)))
                  ∷ [])
              ++ created_packet with_account ∷ [];
          draws = s.draws + 1 + 1;
        },
      )
  unfolding handle_create_whiteboard_request user_or_assigned run
  create_anonymous inv unknown =
      rw unknown (rw (assign_lem M D host socket s inv) (rw D.insert_lem refl))

module _ (M : Mongo) (D : Documented M) (host : Host) (packet : PacketMessage) (socket : ℕ)
    (s : Server M.Db) (oid : M.Oid) (doc : WhiteboardDoc)
    (valid : M.read_oid (get_create_session (action_of packet)).whiteboard_id ≡ ok oid)
    (stored : D.whiteboard s.db oid ≡ some doc) where
  abbrev r : CreateSessionRequest
  r = get_create_session (action_of packet)

  abbrev start : List Operator
  start = set_active_user_ids (r.user_id ∷ []) ∷ []

  -- With sockets whose writes succeed: the owner of a stored whiteboard opens its session: the
  -- socket is in the session, besides those that were, the owner becomes the only active user,
  -- whoever was active before, and the other fields and whiteboards stay.
  pub create_session_owner :
      is_owner doc r.user_id ≡ true
      → (handle_create_session_request M (reliable host) packet socket s ≡ (
        ok tt,
        record s {
          db = D.updated s.db oid start;
          whiteboard_sessions =
              add_socket_to_whiteboard r.whiteboard_id socket s.whiteboard_sessions;
          sent =
              s.sent
              ++ (
                socket,
                (action_response packet.packet_id true "Session created successfully").packet,
              )
                ∷ [];
        },
      ))
        × (D.whiteboard (D.updated s.db oid start) oid
            ≡ some (record doc { active_user_ids = some (r.user_id ∷ []) }))
        × ((o : M.Oid) → oid ≢ o → D.whiteboard (D.updated s.db oid start) o ≡ D.whiteboard s.db o)
  unfolding handle_create_session_request run
  create_session_owner owner = (
    rw (valid, D.find_lem, stored, owner) (rw (D.update_lem _ _ _ refl) refl),
    whiteboard-updated_self D s.db oid _ stored,
    λ o other. whiteboard-updated_ne D s.db oid _ o other,
  )

  -- With sockets whose writes succeed: anyone else is refused, and nothing else changes.
  pub create_session_other :
      is_owner doc r.user_id ≡ false
      → handle_create_session_request M (reliable host) packet socket s ≡ (
        ok tt,
        record s {
          sent =
              s.sent
              ++ (socket, (action_response packet.packet_id false "User ID does not match").packet)
                ∷ [];
        },
      )
  unfolding handle_create_session_request run
  create_session_other other = rw (valid, D.find_lem, stored, other) refl
