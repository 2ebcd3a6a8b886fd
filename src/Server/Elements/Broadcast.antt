-- ===== src/Server/Elements/Broadcast.antt =====
-- handle_broadcast and handle_unicast of src/server/server.cpp: who gets what.
use mathlib.Core.List.{append_assoc, append-nil}
use xyzwhiteboard.Base.{
  Bool-cases, if◌then◌else◌, ℕ, ◌+◌, String, Option, none, some, List, [], ◌∷◌, ◌++◌, map, ◌≡◌,
  refl, ◌∙◌, Option-cases, inl, inr,
}
use xyzwhiteboard.Base.Fail.{ok, Result-cases}
use xyzwhiteboard.Action.{PacketMessage}
use xyzwhiteboard.Packet.{WhiteboardPacket}
use xyzwhiteboard.Server.Mongo.{Mongo, Documented, WhiteboardDoc}
use xyzwhiteboard.Server.Sessions.{find}
use xyzwhiteboard.Server.Sessions.Laws.{shared_of_find, unshared_of_find, at_of_find, store-find}
use xyzwhiteboard.Server.State.{reliable, Server, Host, run}
use xyzwhiteboard.Server.Elements.{
  elements_packet, send_all, broadcast_on, handle_broadcast, handle_unicast,
}

-- The same packet for each socket, in order.
abbrev pub to_all : List ℕ → WhiteboardPacket → List (ℕ × PacketMessage)
to_all sockets p = map (λ socket. (socket, p.packet)) sockets

-- The packets written after the same packet went to each socket in turn: it is lost where the write
-- fails.
abbrev delivered :
    Host → List ℕ → PacketMessage → List (ℕ × PacketMessage) → List (ℕ × PacketMessage)
delivered host [] m sent = sent
delivered host (socket ∷ sockets) m sent =
    delivered host sockets m (if host.writes sent socket m then sent ++ (socket, m) ∷ [] else sent)

send_all_delivers :
    (M : Mongo) (host : Host) (sockets : List ℕ) (p : WhiteboardPacket) (s : Server M.Db)
    → send_all M host sockets p s
      ≡ (ok tt, record s { sent = delivered host sockets p.packet s.sent })
unfolding send_all run
send_all_delivers M host [] p s = refl
send_all_delivers M host (socket ∷ sockets) p s =
    elim (Bool-cases (host.writes s.sent socket p.packet)) [
      | inl written ↦ rw written (send_all_delivers M host sockets p _)
      | inr lost ↦ rw lost (send_all_delivers M host sockets p s)
    ]

module _ (M : Mongo) (host : Host) where
  send_all_lem :
      (sockets : List ℕ) (p : WhiteboardPacket) (s : Server M.Db)
      → send_all M (reliable host) sockets p s
        ≡ (ok tt, record s { sent = s.sent ++ to_all sockets p })
  unfolding send_all run
  send_all_lem [] p s = rw append-nil refl
  send_all_lem (socket ∷ sockets) p s =
      send_all_lem sockets p (record s { sent = s.sent ++ (socket, p.packet) ∷ [] })
      ∙ rw append_assoc refl

module _ (M : Mongo) (D : Documented M) (host : Host) where
  -- With sockets whose writes succeed: a broadcast about a stored whiteboard writes one packet with
  -- all its elements to each socket of the whiteboard's session, in the order of the set, and
  -- changes nothing else but the draw of the packet's id.
  pub broadcast_lem :
      (whiteboard_id : String) (s : Server M.Db) (oid : M.Oid) (doc : WhiteboardDoc)
      (sockets : List ℕ)
      → M.read_oid whiteboard_id ≡ ok oid
      → D.whiteboard s.db oid ≡ some doc
      → find whiteboard_id s.whiteboard_sessions ≡ some sockets
      → handle_broadcast M (reliable host) whiteboard_id s ≡ (
        ok tt,
        record s {
          sent =
              s.sent ++ to_all sockets (elements_packet M (reliable host) doc (host.rand s.draws));
          draws = s.draws + 1;
        },
      )
  unfolding handle_broadcast run
  broadcast_lem whiteboard_id s oid doc sockets valid stored session =
      let sessions = s.whiteboard_sessions in
      rw (shared_of_find _ sessions session, valid, D.find_lem, stored)
        (rw (at_of_find _ sessions session, store-find _ _ sessions session)
          (send_all_lem M (reliable host) sockets _ _))

  -- A whiteboard without a session is not broadcast.
  pub broadcast_unshared :
      (whiteboard_id : String) (s : Server M.Db)
      → find whiteboard_id s.whiteboard_sessions ≡ none
      → handle_broadcast M (reliable host) whiteboard_id s ≡ (ok tt, s)
  unfolding handle_broadcast run
  broadcast_unshared whiteboard_id s absent =
      rw (unshared_of_find _ s.whiteboard_sessions absent) refl

  pub unicast_lem :
      (whiteboard_id : String) (socket : ℕ) (s : Server M.Db) (oid : M.Oid) (doc : WhiteboardDoc)
      (sockets : List ℕ)
      → M.read_oid whiteboard_id ≡ ok oid
      → D.whiteboard s.db oid ≡ some doc
      → find whiteboard_id s.whiteboard_sessions ≡ some sockets
      → handle_unicast M (reliable host) whiteboard_id socket s ≡ (
        ok tt,
        record s {
          sent =
              s.sent
              ++ (socket, (elements_packet M (reliable host) doc (host.rand s.draws)).packet) ∷ [];
          draws = s.draws + 1;
        },
      )
  unfolding handle_unicast run
  unicast_lem whiteboard_id socket s oid doc sockets valid stored session =
      rw (shared_of_find _ s.whiteboard_sessions session, valid, D.find_lem, stored) refl

broadcast_on_sessions :
    (M : Mongo) (host : Host) (whiteboard_id : String) (sockets : List ℕ)
    (found : Option WhiteboardDoc) (s : Server M.Db)
    → find whiteboard_id s.whiteboard_sessions ≡ some sockets
    → (broadcast_on M host whiteboard_id found s).1.whiteboard_sessions ≡ s.whiteboard_sessions
unfolding broadcast_on run
broadcast_on_sessions M host whiteboard_id sockets none s session = refl
broadcast_on_sessions M host whiteboard_id sockets (some doc) s session =
    rw
      (
        at_of_find _ s.whiteboard_sessions session,
        store-find _ _ s.whiteboard_sessions session,
        send_all_delivers M host sockets _ _,
      )
      refl

-- A broadcast leaves the table of sessions as it was, whatever the database answers.
pub broadcast_sessions :
    (M : Mongo) (host : Host) (whiteboard_id : String) (s : Server M.Db)
    → (handle_broadcast M host whiteboard_id s).1.whiteboard_sessions ≡ s.whiteboard_sessions
unfolding handle_broadcast run
broadcast_sessions M host whiteboard_id s =
    elim (Option-cases (find whiteboard_id s.whiteboard_sessions)) [
      | inl absent ↦ rw (unshared_of_find _ s.whiteboard_sessions absent) refl
      | inr (sockets, session) ↦
          rw (shared_of_find _ s.whiteboard_sessions session)
            (elim (Result-cases (M.read_oid whiteboard_id)) [
              | inl (oid, valid) ↦ rw valid (elim (Result-cases (M.find_whiteboard oid s.db).0) [
                | inl (found, answer) ↦
                    rw answer (broadcast_on_sessions M host whiteboard_id sockets found _ session)
                | inr (e, failed) ↦ rw failed refl
              ])
              | inr (e, invalid) ↦ rw invalid refl
            ])
    ]
