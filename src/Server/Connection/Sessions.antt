-- ===== src/Server/Connection/Sessions.antt =====
-- The table of sessions under every interleaving of packets.
use xyzwhiteboard.Base.{ℕ, List, ◌≡◌, arith, refl, subst, sym}
use xyzwhiteboard.Base.Fail.{Action}
use xyzwhiteboard.Server.State.{Server, Host, run, send_packet, draw, query}
use xyzwhiteboard.Packet.{WhiteboardPacket}
use xyzwhiteboard.Server.Users.Keeps.{assign-Keeps, register-Keeps}
use xyzwhiteboard.Server.Elements.Broadcast.{broadcast_sessions}
use xyzwhiteboard.Server.Keeps.{Keeps, Both, kept}
use xyzwhiteboard.Server.Stable.{Stable}
use xyzwhiteboard.Server.Connection.{serve}
use xyzwhiteboard.Server.Connection.Keeps.{serve-Keeps}
use xyzwhiteboard.Action.{PacketMessage}
use xyzwhiteboard.Server.Mongo.{Mongo}
use xyzwhiteboard.Server.Sessions.Sets.{
  SessionsInv, add_socket-SessionsInv, remove_socket-SessionsInv,
}

module _ (M : Mongo) (host : Host) where
  abbrev WellFormed : Server M.Db → Type 0
  WellFormed s = SessionsInv s.whiteboard_sessions

  -- An action that leaves the table alone.
  same_table :
      {A : Type 0} (m : Action (Server M.Db) A)
      → ((s : Server M.Db) → (m s).1.whiteboard_sessions ≡ s.whiteboard_sessions)
      → Keeps (Both WellFormed) m m
  same_table m same = kept WellFormed m (λ s h. subst SessionsInv (sym (same s)) h)

  send_sessions :
      (socket : ℕ) (p : WhiteboardPacket) (s : Server M.Db)
      → (send_packet host socket p s).1.whiteboard_sessions ≡ s.whiteboard_sessions
  unfolding run
  send_sessions socket p s = ground arith

  sends :
      (socket : ℕ) (p : WhiteboardPacket)
      → Keeps (Both WellFormed) (send_packet host socket p) (send_packet host socket p)
  sends socket p = same_table _ (send_sessions socket p)

  draws : {A : Type 0} (f : ℕ → A) → Keeps (Both WellFormed) (draw f) (draw f)
  unfolding run
  draws f = same_table _ (λ s. refl)

  queries : {A : Type 0} (m : Action M.Db A) → Keeps (Both WellFormed) (query m) (query m)
  unfolding run
  queries m = same_table _ (λ s. refl)

  stable :
      (socket : ℕ) (packet : PacketMessage)
      → Stable M host host.writes (Both WellFormed) socket packet
  unfolding run
  stable socket packet = record {
    sends = λ p _. sends socket p;
    draws = draws;
    finds = λ o. queries _;
    inserts = λ d. queries _;
    updates = λ o ops. queries _;
    deletes = λ o. queries _;
    finds_user = λ name. queries _;
    connects =
        λ k. kept WellFormed _ (λ s h. add_socket-SessionsInv k socket s.whiteboard_sessions h);
    disconnects =
        λ k. kept WellFormed _ (λ s h. remove_socket-SessionsInv k socket s.whiteboard_sessions h);
    tests = λ k. same_table _ (λ s. refl);
    assigns =
        assign-Keeps M host host.writes socket packet (λ p _. sends socket p) draws draws
          (queries _) (λ u. queries _) (λ name. queries _);
    registers =
        register-Keeps M host host.writes socket packet (λ p _. sends socket p) draws draws
          (queries _) (λ u. queries _) (λ name. queries _);
    broadcasts = λ k. same_table _ (broadcast_sessions M host k);
  }

  -- From a well-formed table, whatever packets come in on whatever sockets, whatever the database
  -- answers: no set of sockets in the table is empty, and each is in order without repetition.
  pub serve-SessionsInv :
      (events : List (ℕ × PacketMessage)) (s : Server M.Db)
      → SessionsInv s.whiteboard_sessions
      → SessionsInv (serve M host events s).whiteboard_sessions
  serve-SessionsInv events s h =
      (serve-Keeps events (λ n socket packet _. stable socket packet) s s (refl, h)).1
