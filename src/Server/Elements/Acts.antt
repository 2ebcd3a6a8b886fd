-- ===== src/Server/Elements/Acts.antt =====
-- A broadcast of src/server/server.cpp, when it runs alone, is a sequence of acts.
use xyzwhiteboard.Base.{
  ℕ, String, true, Option, none, some, List, [], ◌∷◌, ◌≡◌, refl, arith, eq_refl, contains, inl, inr,
  Bool-cases, ap, ◌∙◌, subst,
}
use xyzwhiteboard.Base.Fail.{Result-cases}
use xyzwhiteboard.Action.{PacketMessage}
use xyzwhiteboard.Server.Mongo.{Mongo, WhiteboardDoc}
use xyzwhiteboard.Server.Sessions.{Sessions, at, store, find, is_whiteboard_shared}
use xyzwhiteboard.Server.Sessions.Laws.{connected, find-store, at_of_find}
use xyzwhiteboard.Server.State.{Server, Host, run}
use xyzwhiteboard.Server.Elements.{elements_packet, send_all, broadcast_on, handle_broadcast}
use xyzwhiteboard.Server.Connection.Writes.{send_packet_lem}
use xyzwhiteboard.Server.Acts.{finds, draws, opens, tells, Acts, next}

connected-opens :
    (k : String) (other : ℕ) (m : Sessions)
    → connected k other (store k (at k m) m) ≡ contains other (at k m)
connected-opens k other m =
    let now : find k (store k (at k m) m) ≡ some (at k m) =
      find-store k k (at k m) m ∙ rw (eq_refl k) refl in
    ap (λ (sockets : List ℕ). contains other sockets) (at_of_find k (store k (at k m) m) now)

module _ (M : Mongo) (host : Host) (socket : ℕ) (packet : PacketMessage) (start : Server M.Db) where
  abbrev From : Server M.Db → Type 0
  From s = Acts M host socket packet start s

  send_all-Acts :
      (k : String) (doc : WhiteboardDoc) (id : ℕ) (sockets : List ℕ) (s : Server M.Db)
      → ((other : ℕ)
          → contains other sockets ≡ true
          → connected k other s.whiteboard_sessions ≡ true)
      → From s
      → From (send_all M host sockets (elements_packet M host doc id) s).1
  unfolding send_all contains
  send_all-Acts k doc id [] s there before = before
  send_all-Acts k doc id (other ∷ sockets) s there before =
      let p = elements_packet M host doc id in
      rw (send_packet_lem host other p s) (
        send_all-Acts k doc id sockets _ (λ o h. there o (ground arith))
          (subst (λ (r : _). From r.1) (send_packet_lem host other p s)
            (next before (tells k other doc id (there other (ground arith))))))

  broadcast_on-Acts :
      (k : String) (found : Option WhiteboardDoc) (s : Server M.Db)
      → From s
      → From (broadcast_on M host k found s).1
  unfolding broadcast_on run
  broadcast_on-Acts k none s before = before
  broadcast_on-Acts k (some doc) s before =
      let m = s.whiteboard_sessions in
      send_all-Acts k doc (host.rand s.draws) (at k m) _ (λ other h. connected-opens k other m ∙ h)
        (next (next before draws) (opens k))

  pub broadcast-Acts :
      (k : String) (s : Server M.Db) → From s → From (handle_broadcast M host k s).1
  unfolding handle_broadcast run
  broadcast-Acts k s before = elim (Bool-cases (is_whiteboard_shared k s.whiteboard_sessions)) [
    | inr unshared ↦ rw unshared before
    | inl sharing ↦ rw sharing (elim (Result-cases (M.read_oid k)) [
      | inr (e, invalid) ↦ rw invalid before
      | inl (oid, valid) ↦ rw valid (elim (Result-cases (M.find_whiteboard oid s.db).0) [
        | inl (found, answer) ↦ rw answer (broadcast_on-Acts k found _ (next before (finds oid)))
        | inr (e, failed) ↦ rw failed (next before (finds oid))
      ])
    ])
  ]
