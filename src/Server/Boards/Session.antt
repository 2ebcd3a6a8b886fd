-- ===== src/Server/Boards/Session.antt =====
-- handle_join_session_request and handle_quit_session_request of src/server/server.cpp.
use xyzwhiteboard.Base.{
  ℕ, String, ◌+◌, ◌==◌, str_eq, if◌then◌else◌, contains, contains-with_member, true, false, none,
  some, List, [], ◌∷◌, ◌++◌, ◌≡◌, ◌≢◌, refl, with_member, without, ◌∙◌, inl, inr, ◌⊎◌,
}
use xyzwhiteboard.Base.Fail.{ok}
use xyzwhiteboard.Action.{
  PacketMessage, JoinSessionRequest, QuitSessionRequest, action_of, get_join_session,
  get_quit_session,
}
use xyzwhiteboard.Packet.{WhiteboardPacket}
use xyzwhiteboard.Server.Mongo.{
  Mongo, Documented, WhiteboardDoc, Operator, apply_operators, add_to_set_active_user_ids,
  pull_active_user_ids,
}
use xyzwhiteboard.Server.Mongo.Laws.{
  same_oid_refl, same_oid_ne, whiteboard-updated_self, whiteboard-updated_ne,
}
use xyzwhiteboard.Server.Sessions.{add_socket_to_whiteboard, remove_socket_from_whiteboard}
use xyzwhiteboard.Server.Sessions.Laws.{
  connected, connected-add_socket, find-add_socket_self, shared_of_find,
}
use xyzwhiteboard.Server.State.{reliable, Server, Host, action_response, run}
use xyzwhiteboard.Server.Elements.{elements_packet, stored_elements}
use xyzwhiteboard.Server.Boards.{
  user_or_assigned, handle_join_session_request, delete_deserted, handle_quit_session_request,
}
use xyzwhiteboard.Server.Boards.Create.{==_ne}

module _ (M : Mongo) (D : Documented M) (host : Host) (packet : PacketMessage) (socket : ℕ)
    (s : Server M.Db) (oid : M.Oid) (doc : WhiteboardDoc)
    (valid : M.read_oid (get_join_session (action_of packet)).whiteboard_id ≡ ok oid)
    (stored : D.whiteboard s.db oid ≡ some doc)
    (known : (get_join_session (action_of packet)).user_id ≢ 0) where
  abbrev r : JoinSessionRequest
  r = get_join_session (action_of packet)

  abbrev enter : List Operator
  enter = add_to_set_active_user_ids r.user_id ∷ []

  -- The state when the elements are sent.
  abbrev entered : Server M.Db
  entered = record s {
    db = D.updated s.db oid enter;
    whiteboard_sessions = add_socket_to_whiteboard r.whiteboard_id socket s.whiteboard_sessions;
  }

  joins :
      (ids : List ℕ) (elements : WhiteboardPacket)
      → doc.active_user_ids ≡ some ids
      → elements_packet M (reliable host) (apply_operators enter doc) (host.rand s.draws) ≡ elements
      → handle_join_session_request M (reliable host) packet socket s ≡ (
        ok tt,
        record s {
          db = D.updated s.db oid enter;
          whiteboard_sessions = entered.whiteboard_sessions;
          sent =
              (s.sent ++ (socket, elements.packet) ∷ [])
              ++ (socket, (action_response packet.packet_id true r.whiteboard_id).packet) ∷ [];
          draws = s.draws + 1;
        },
      )
  unfolding handle_join_session_request user_or_assigned run
  joins ids elements active same =
      let stored' = whiteboard-updated_self D s.db oid enter stored in
      let session = find-add_socket_self r.whiteboard_id socket s.whiteboard_sessions in
      rw (==_ne r.user_id 0 known) (
        rw (valid, D.find_lem, stored, active)
          (rw (D.update_lem _ _ _ refl) (
            rw (shared_of_find _ entered.whiteboard_sessions session)
              (rw (valid, D.find_lem oid entered.db, stored', same) refl))))

  -- With sockets whose writes succeed: a known user joins the session of a stored whiteboard that
  -- has active ids. The user is then active, at the end of the ids if it was not among them, which
  -- stay; the connected pairs of whiteboard and socket are those from before and this one. The
  -- socket gets all the elements first and then the reply with the whiteboard's id.
  pub join_active :
      (ids : List ℕ)
      → doc.active_user_ids ≡ some ids
      → (handle_join_session_request M (reliable host) packet socket s ≡ (
        ok tt,
        record s {
          db = D.updated s.db oid enter;
          whiteboard_sessions =
              add_socket_to_whiteboard r.whiteboard_id socket s.whiteboard_sessions;
          sent =
              (s.sent
                ++ (socket, (elements_packet M (reliable host) doc (host.rand s.draws)).packet)
                  ∷ [])
              ++ (socket, (action_response packet.packet_id true r.whiteboard_id).packet) ∷ [];
          draws = s.draws + 1;
        },
      ))
        × (D.whiteboard (D.updated s.db oid enter) oid
            ≡ some (record doc { active_user_ids = some (with_member r.user_id ids) }))
        × ((id : ℕ)
            → contains id (with_member r.user_id ids)
              ≡ (if r.user_id == id then true else contains id ids))
        × ((k : String) (other : ℕ)
            → connected k other entered.whiteboard_sessions ≡ (
                if str_eq r.whiteboard_id k
                then (if socket == other then true else connected k other s.whiteboard_sessions)
                else connected k other s.whiteboard_sessions))
  unfolding elements_packet stored_elements
  join_active ids active =
      let stored' = whiteboard-updated_self D s.db oid enter stored in
      (
        joins ids _ active refl,
        stored' ∙ rw active refl,
        λ id. contains-with_member r.user_id id ids,
        λ k other. connected-add_socket r.whiteboard_id k socket other s.whiteboard_sessions,
      )

  -- With sockets whose writes succeed: a whiteboard whose session was never opened refuses to be
  -- joined, and nothing else changes.
  pub join_inactive :
      doc.active_user_ids ≡ none
      → handle_join_session_request M (reliable host) packet socket s ≡ (
        ok tt,
        record s {
          sent =
              s.sent
              ++ (
                socket,
                (action_response packet.packet_id false
                    "Whiteboard is not in shared status").packet,
              )
                ∷ [];
        },
      )
  unfolding handle_join_session_request user_or_assigned run
  join_inactive inactive =
      rw (==_ne r.user_id 0 known) (rw (valid, D.find_lem, stored, inactive) refl)

List-cases : (xs : List ℕ) → (xs ≡ []) ⊎ ((y : ℕ) × (ys : List ℕ) × (xs ≡ y ∷ ys))
List-cases [] = inl refl
List-cases (x ∷ xs) = inr (x, xs, refl)

module _ (M : Mongo) (D : Documented M) (host : Host) (packet : PacketMessage) (socket : ℕ)
    (s : Server M.Db) (oid : M.Oid)
    (valid : M.read_oid (get_quit_session (action_of packet)).whiteboard_id ≡ ok oid) where
  abbrev q : QuitSessionRequest
  q = get_quit_session (action_of packet)

  abbrev leave : List Operator
  leave = pull_active_user_ids q.user_id ∷ []

  -- The state after a quit that leaves the given database.
  abbrev pub quitted : M.Db → Server M.Db
  quitted db = record s {
    db = db;
    whiteboard_sessions =
        remove_socket_from_whiteboard q.whiteboard_id socket s.whiteboard_sessions;
    sent =
        s.sent
        ++ (socket, (action_response packet.packet_id true "Quit session successfully").packet)
          ∷ [];
  }

  -- With sockets whose writes succeed: a user quits the session of a stored whiteboard with active
  -- ids, and another active user is left: the user is no longer active, the socket is not in the
  -- session, its sender is answered, and the whiteboard is otherwise as it was.
  pub quit_stays :
      (doc : WhiteboardDoc) (ids : List ℕ)
      → D.whiteboard s.db oid ≡ some doc
      → doc.active_user_ids ≡ some ids
      → without q.user_id ids ≢ []
      → (handle_quit_session_request M (reliable host) packet socket s
          ≡ (ok tt, quitted (D.updated s.db oid leave)))
        × (D.whiteboard (D.updated s.db oid leave) oid
            ≡ some (record doc { active_user_ids = some (without q.user_id ids) }))
  unfolding handle_quit_session_request delete_deserted run
  quit_stays doc ids stored active others = (
    rw (valid, D.update_lem oid leave s.db refl, D.find_lem oid (D.updated s.db oid leave))
        (rw (whiteboard-updated_self D s.db oid leave stored, active)
          (elim (List-cases (without q.user_id ids)) [
            | inl nobody ↦ absurd (others nobody)
            | inr (x, xs, e) ↦ rw e refl
          ])),
    whiteboard-updated_self D s.db oid leave stored ∙ rw active refl,
  )

  -- With sockets whose writes succeed: a user quits the session of a stored whiteboard with active
  -- ids, and no other active user is left: the whiteboard is deleted, and only that one, the socket
  -- is not in the session, and its sender is answered.
  pub quit_last :
      (doc : WhiteboardDoc) (ids : List ℕ)
      → D.whiteboard s.db oid ≡ some doc
      → doc.active_user_ids ≡ some ids
      → without q.user_id ids ≡ []
      → (handle_quit_session_request M (reliable host) packet socket s
          ≡ (ok tt, quitted (D.deleted (D.updated s.db oid leave) oid)))
        × (D.whiteboard (D.deleted (D.updated s.db oid leave) oid) oid ≡ none)
        × ((o : M.Oid)
            → oid ≢ o
            → D.whiteboard (D.deleted (D.updated s.db oid leave) oid) o ≡ D.whiteboard s.db o)
  unfolding handle_quit_session_request delete_deserted run
  quit_last doc ids stored active alone = (
    rw (valid, D.update_lem oid leave s.db refl, D.find_lem oid (D.updated s.db oid leave))
        (rw (whiteboard-updated_self D s.db oid leave stored, active, alone)
          (rw D.delete_lem refl)),
    rw (D.whiteboard-deleted, same_oid_refl D oid) refl,
    λ o other.
        rw (D.whiteboard-deleted, same_oid_ne D oid o other)
          (whiteboard-updated_ne D s.db oid leave o other),
  )
