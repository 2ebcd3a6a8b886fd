-- ===== src/Server/Connection/Writes.antt =====
-- Failing writes to sockets, which send_packet of src/server/server.cpp prints and forgets.
use mathlib.Core.List.{append-nil}
use xyzwhiteboard.Base.{
  ℕ, ◌+◌, String, true, false, List, [], ◌∷◌, ◌++◌, ◌≡◌, refl, ap, sym, ◌∙◌, ◌==◌, ==_iff,
  Bool-cases, inl, inr, if◌then◌else◌,
}
use mathlib.Core.Bool.{false≢true}
use xyzwhiteboard.Base.Fail.{ok, Action, gets}
use xyzwhiteboard.Action.{PacketMessage}
use xyzwhiteboard.Packet.{WhiteboardPacket}
use xyzwhiteboard.Server.Mongo.{Mongo}
use xyzwhiteboard.Server.Sessions.{Sessions, at, is_whiteboard_shared}
use xyzwhiteboard.Server.State.{
  reliable, Server, Host, send_packet, draw, query, shared, modify_sessions, run, for_socket,
}
use xyzwhiteboard.Server.Users.Keeps.{assign-Keeps, register-Keeps}
use xyzwhiteboard.Server.Elements.Keeps.{broadcast-Keeps}
use xyzwhiteboard.Server.Keeps.{Keeps}
use xyzwhiteboard.Server.Stable.{Stable}
use xyzwhiteboard.Server.Connection.{serve}
use xyzwhiteboard.Server.Connection.Keeps.{serve-Keeps}

for_socket-append :
    (k : ℕ) (xs ys : List (ℕ × PacketMessage))
    → for_socket k (xs ++ ys) ≡ for_socket k xs ++ for_socket k ys
for_socket-append k [] ys = refl
for_socket-append k ((j, m) ∷ xs) ys = elim (Bool-cases (j == k)) [
  | inl same ↦ rw same (ap (λ (ms : List PacketMessage). m ∷ ms) (for_socket-append k xs ys))
  | inr other ↦ rw other (for_socket-append k xs ys)
]

-- Writes to the socket never fail.
abbrev pub Steady : Host → ℕ → Type 0
Steady host k = (sent : List (ℕ × PacketMessage)) (m : PacketMessage) → host.writes sent k m ≡ true

-- Two states that differ in nothing but the packets to sockets whose writes may fail.
pub record Alike {Db : Type 0} (host : Host) (s t : Server Db) : Type 0 where
  pub db : s.db ≡ t.db
  pub table : s.whiteboard_sessions ≡ t.whiteboard_sessions
  pub drawn : s.draws ≡ t.draws
  pub written : (k : ℕ) → Steady host k → for_socket k s.sent ≡ for_socket k t.sent

not_for :
    (k socket : ℕ) (m : PacketMessage) (ys : List (ℕ × PacketMessage))
    → (socket == k) ≡ false
    → for_socket k (ys ++ (socket, m) ∷ []) ≡ for_socket k ys
not_for k socket m ys other =
    for_socket-append k ys ((socket, m) ∷ []) ∙ rw other (append-nil (for_socket k ys))

module _ (host : Host) where
  -- A write that may fail, and one that does not.
  send-Written :
      (xs ys : List (ℕ × PacketMessage)) (socket : ℕ) (m : PacketMessage) (k : ℕ)
      → Steady host k
      → for_socket k xs ≡ for_socket k ys
      → for_socket k (if host.writes xs socket m then xs ++ (socket, m) ∷ [] else xs)
        ≡ for_socket k (ys ++ (socket, m) ∷ [])
  send-Written xs ys socket m k steady same = elim (Bool-cases (host.writes xs socket m)) [
    | inl written ↦ rw written (
        for_socket-append k xs ((socket, m) ∷ [])
        ∙ ap (λ (l : List PacketMessage). l ++ for_socket k ((socket, m) ∷ [])) same
        ∙ sym (for_socket-append k ys ((socket, m) ∷ [])))
    | inr lost ↦ elim (Bool-cases (socket == k)) [
      | inl own ↦
          let e = (==_iff socket k).0 own in absurd (false≢true (sym lost ∙ rw e (steady xs m)))
      | inr other ↦ rw lost (same ∙ sym (not_for k socket m ys other))
    ]
  ]

  module _ {Db : Type 0} where
    abbrev Same : Server Db → Server Db → Type 0
    Same = Alike host

    pub send_packet_lem :
        (socket : ℕ) (p : WhiteboardPacket) (s : Server Db)
        → send_packet host socket p s ≡ (
          ok tt,
          record s {
            sent =
                (if host.writes s.sent socket p.packet
                  then s.sent ++ (socket, p.packet) ∷ []
                  else s.sent);
          },
        )
    unfolding run
    send_packet_lem socket p s = elim (Bool-cases (host.writes s.sent socket p.packet)) [
      | inl written ↦ rw written refl
      | inr lost ↦ rw lost refl
    ]

    sends :
        (socket : ℕ) (p : WhiteboardPacket)
        → Keeps Same (send_packet host socket p) (send_packet (reliable host) socket p)
    unfolding run
    sends socket p = record {
      after = λ s t h. rw (send_packet_lem socket p s) (
        refl,
        record {
          db = h.db;
          table = h.table;
          drawn = h.drawn;
          written =
              λ k steady. send-Written s.sent t.sent socket p.packet k steady (h.written k steady);
        },
      );
    }

    draws : {A : Type 0} (f : ℕ → A) → Keeps Same (draw f) (draw f)
    unfolding run
    draws f = record {
      after = λ s t h. (
        ap (λ (n : ℕ). ok (f n)) h.drawn,
        record {
          db = h.db;
          table = h.table;
          drawn = ap (λ (n : ℕ). n + 1) h.drawn;
          written = h.written;
        },
      );
    }

    queries : {A : Type 0} (m : Action Db A) → Keeps Same (query m) (query m)
    unfolding run
    queries m = record {
      after = λ s t h. (
        ap (λ (d : Db). (m d).0) h.db,
        record {
          db = ap (λ (d : Db). (m d).1) h.db;
          table = h.table;
          drawn = h.drawn;
          written = h.written;
        },
      );
    }

    moves : (f : Sessions → Sessions) → Keeps Same (modify_sessions f) (modify_sessions f)
    unfolding run
    moves f = record {
      after = λ s t h.
          (refl, record { db = h.db; table = ap f h.table; drawn = h.drawn; written = h.written });
    }

    tests : (k : String) → Keeps Same (shared k) (shared k)
    unfolding run
    tests k = record {
      after = λ s t h. (ap (λ (m : Sessions). ok (is_whiteboard_shared k m)) h.table, h);
    }

    reads :
        (k : String)
        → Keeps Same
            (gets (λ s. at k s.whiteboard_sessions))
            (gets (λ s. at k s.whiteboard_sessions))
    reads k = record { after = λ s t h. (ap (λ (m : Sessions). ok (at k m)) h.table, h) }

  module _ (M : Mongo) where
    stable :
        (socket : ℕ) (packet : PacketMessage)
        → Stable M host (λ sent k m. true) (Alike host) socket packet
    stable socket packet = record {
      sends = λ p _. sends socket p;
      draws = draws;
      finds = λ o. queries _;
      inserts = λ d. queries _;
      updates = λ o ops. queries _;
      deletes = λ o. queries _;
      finds_user = λ name. queries _;
      connects = λ k. moves _;
      disconnects = λ k. moves _;
      tests = tests;
      assigns =
          assign-Keeps M host _ socket packet (λ p _. sends socket p) draws draws (queries _)
            (λ u. queries _) (λ name. queries _);
      registers =
          register-Keeps M host _ socket packet (λ p _. sends socket p) draws draws (queries _)
            (λ u. queries _) (λ name. queries _);
      broadcasts =
          broadcast-Keeps M host _ sends draws (λ o. queries _) (λ k sockets. moves _) tests reads;
    }

    -- Whatever writes to sockets fail, whatever packets come in on whatever sockets: the database, the
    -- table of sessions and the draws come out as if every write had succeeded, and so do the packets
    -- to each socket whose own writes never fail.
    pub serve-Alike :
        (events : List (ℕ × PacketMessage)) (s : Server M.Db)
        → Alike host (serve M host events s) (serve M (reliable host) events s)
    serve-Alike events s =
        serve-Keeps events (λ n socket packet _. stable socket packet) s s
          (record { db = refl; table = refl; drawn = refl; written = λ k steady. refl })
