-- ===== src/Server/Connection/Replies.antt =====
-- Who is written to by the handlers of src/server/server.cpp, and with what.
use xyzwhiteboard.Base.{
  ℕ, zero, suc, String, Bool, true, false, some, List, [], ◌∷◌, ◌++◌, ◌≡◌, refl, arith, ap, sym,
  ◌∙◌, subst, ◌==◌, ==_iff, str_eq, eq_iff, contains, if◌then◌else◌, get_elem?, Bool-cases, inl,
  inr,
}
use xyzwhiteboard.Action.{PacketMessage}
use xyzwhiteboard.Packet.{WhiteboardPacket}
use xyzwhiteboard.Server.Mongo.{Mongo}
use xyzwhiteboard.Server.Sessions.{
  Sessions, find, at, store, add_socket_to_whiteboard, remove_socket_from_whiteboard,
}
use xyzwhiteboard.Server.Sessions.Laws.{
  connected, find-store, connected-add_socket, connected-remove_socket,
}
use xyzwhiteboard.Server.State.{Server, Host, send_packet, run}
use xyzwhiteboard.Server.Elements.{elements_packet}
use xyzwhiteboard.Server.Stable.{Reply, shows}
use xyzwhiteboard.Server.Acts.{
  Act, finds, inserts, updates, deletes, finds_user, inserts_user, counts, draws, replies, connects,
  disconnects, opens, tells, Acts, no_more, next,
}
use xyzwhiteboard.Server.Acts.Handlers.{handle_packet-Acts}
use xyzwhiteboard.Server.Connection.{handle_packet, serve}
use xyzwhiteboard.Server.Connection.Writes.{send_packet_lem}
use xyzwhiteboard.Server.State.{fresh_server}

-- A packet came in on the socket.
pub record Heard (events : List (ℕ × PacketMessage)) (socket : ℕ) : Type 0 where
  pub request : PacketMessage
  pub place : ℕ
  pub came : get_elem? events place ≡ some (socket, request)

module _ (M : Mongo) (host : Host) (events : List (ℕ × PacketMessage)) where
  -- The message is a reply that the handlers give to a packet that came in on the socket.
  pub record Owed (socket : ℕ) (m : PacketMessage) : Type 0 where
    pub heard : Heard events socket
    pub packet : WhiteboardPacket
    pub reply : Reply M host heard.request.packet_id packet
    pub same : m ≡ packet.packet

  abbrev pub AllOwed : List (ℕ × PacketMessage) → Type 0
  AllOwed [] = Unit {0}
  AllOwed ((socket, m) ∷ sent) = Owed socket m × AllOwed sent

  AllOwed-append :
      (sent : List (ℕ × PacketMessage)) (socket : ℕ) (m : PacketMessage)
      → AllOwed sent
      → Owed socket m
      → AllOwed (sent ++ (socket, m) ∷ [])
  AllOwed-append [] socket m all new = (new, tt)
  AllOwed-append (e ∷ sent) socket m (first, rest) new =
      (first, AllOwed-append sent socket m rest new)

  AllOwed-write :
      (b : Bool) (sent : List (ℕ × PacketMessage)) (socket : ℕ) (m : PacketMessage)
      → AllOwed sent
      → Owed socket m
      → AllOwed (if b then sent ++ (socket, m) ∷ [] else sent)
  AllOwed-write true sent socket m all new = AllOwed-append sent socket m all new
  AllOwed-write false sent socket m all new = all

  abbrev pub AllHeard : Sessions → Type 0
  AllHeard m = (j : String) (k : ℕ) → connected j k m ≡ true → Heard events k

  -- Every packet written is owed, and every socket in the table is one that a packet came in on.
  pub record Fair (s : Server M.Db) : Type 0 where
    pub owed : AllOwed s.sent
    pub heard : AllHeard s.whiteboard_sessions

  -- When a packet that is among those that came in is handled.
  module _ {socket : ℕ} (asked : Heard events socket) where
    connects-AllHeard :
        (k : String) (m : Sessions) → AllHeard m → AllHeard (add_socket_to_whiteboard k socket m)
    connects-AllHeard k m h j other there = elim (Bool-cases (socket == other)) [
      | inl same ↦ subst (Heard events) ((==_iff socket other).0 same) asked
      | inr differ ↦ h j other (ground (arith, connected-add_socket k j socket other m))
    ]

    disconnects-AllHeard :
        (k : String) (m : Sessions)
        → AllHeard m
        → AllHeard (remove_socket_from_whiteboard k socket m)
    disconnects-AllHeard k m h j other there =
        h j other (ground (arith, connected-remove_socket k j socket other m))

    opens-AllHeard : (k : String) (m : Sessions) → AllHeard m → AllHeard (store k (at k m) m)
    opens-AllHeard k m h j other there = elim (Bool-cases (str_eq k j)) [
      | inl same ↦ h k other (ground (arith, eq_iff k j, find-store k j (at k m) m))
      | inr differ ↦ h j other (ground (arith, eq_iff k j, find-store k j (at k m) m))
    ]

    send-Fair :
        (k : ℕ) (p : WhiteboardPacket) (s : Server M.Db)
        → Owed k p.packet
        → Fair s
        → Fair (send_packet host k p s).1
    send-Fair k p s owed h = rw (send_packet_lem host k p s) (record {
      owed = AllOwed-write (host.writes s.sent k p.packet) s.sent k p.packet h.owed owed;
      heard = h.heard;
    })

    -- No act of a handler for the packet breaks that, whatever acts came between.
    pub Act-Fair : {s t : Server M.Db} → Act M host socket asked.request s t → Fair s → Fair t
    unfolding run
    Act-Fair (finds o) h = record { owed = h.owed; heard = h.heard }
    Act-Fair (inserts d) h = record { owed = h.owed; heard = h.heard }
    Act-Fair (updates o ops) h = record { owed = h.owed; heard = h.heard }
    Act-Fair (deletes o) h = record { owed = h.owed; heard = h.heard }
    Act-Fair (finds_user name) h = record { owed = h.owed; heard = h.heard }
    Act-Fair (inserts_user u) h = record { owed = h.owed; heard = h.heard }
    Act-Fair counts h = record { owed = h.owed; heard = h.heard }
    Act-Fair draws h = record { owed = h.owed; heard = h.heard }
    Act-Fair {s} (replies p reply) h =
        send-Fair socket p s (record { heard = asked; packet = p; reply = reply; same = refl }) h
    Act-Fair {s} (connects k) h = record {
      owed = h.owed;
      heard = connects-AllHeard k s.whiteboard_sessions h.heard;
    }
    Act-Fair {s} (disconnects k) h = record {
      owed = h.owed;
      heard = disconnects-AllHeard k s.whiteboard_sessions h.heard;
    }
    Act-Fair {s} (opens k) h = record {
      owed = h.owed;
      heard = opens-AllHeard k s.whiteboard_sessions h.heard;
    }
    Act-Fair {s} (tells k other doc id there) h =
        send-Fair other (elements_packet M host doc id) s
          (record { heard = h.heard k other there; packet = _; reply = shows doc id; same = refl })
          h

    Acts-Fair : {s t : Server M.Db} → Acts M host socket asked.request s t → Fair s → Fair t
    Acts-Fair no_more h = h
    Acts-Fair (next before act) h = Act-Fair act (Acts-Fair before h)

  serve-Fair :
      (handled : List (ℕ × PacketMessage)) (s : Server M.Db)
      → ((n socket : ℕ) (packet : PacketMessage)
          → get_elem? handled n ≡ some (socket, packet)
          → (place : ℕ) × (get_elem? events place ≡ some (socket, packet)))
      → Fair s
      → Fair (serve M host handled s)
  unfolding serve
  serve-Fair [] s came h = h
  serve-Fair ((socket, packet) ∷ handled) s came h =
      let (place, at) = came 0 socket packet refl in
      serve-Fair handled _ (λ n. came (suc n))
        (Acts-Fair (record { request = packet; place = place; came = at })
          (handle_packet-Acts M host socket packet s) h)

  -- From a new server, whatever writes fail, whatever the database answers and whatever packets come in
  -- on whatever sockets: each packet written to a socket is owed to a packet that came in on the same
  -- socket. It is an action response with that packet's id, or announces a user id, or has the elements
  -- of a document.
  pub serve-AllOwed : (db : M.Db) → AllOwed (serve M host events (fresh_server db)).sent
  unfolding find contains
  serve-AllOwed db =
      (serve-Fair events (fresh_server db) (λ n socket packet came. (n, came))
        (record { owed = tt; heard = λ j k there. cc })).owed

module _ (M : Mongo) (host : Host) where
  serve-append :
      (es fs : List (ℕ × PacketMessage)) (s : Server M.Db)
      → serve M host (es ++ fs) s ≡ serve M host fs (serve M host es s)
  unfolding serve
  serve-append [] fs s = refl
  serve-append ((socket, packet) ∷ es) fs s =
      serve-append es fs (handle_packet M host packet socket s).1

  pub serve-one :
      (db : M.Db) (es : List (ℕ × PacketMessage)) (socket : ℕ) (packet : PacketMessage)
      (s : Server M.Db)
      → s ≡ serve M host es (fresh_server db)
      → (handle_packet M host packet socket s).1
        ≡ serve M host (es ++ (socket, packet) ∷ []) (fresh_server db)
  unfolding serve
  serve-one db es socket packet s same =
      ap (λ (t : Server M.Db). (handle_packet M host packet socket t).1) same
      ∙ sym (serve-append es ((socket, packet) ∷ []) (fresh_server db))

-- More packets that come in.
module _ (M : Mongo) (host : Host) (events more : List (ℕ × PacketMessage)) where
  get-append :
      (es : List (ℕ × PacketMessage)) (n : ℕ) (e : ℕ × PacketMessage)
      → get_elem? es n ≡ some e
      → get_elem? (es ++ more) n ≡ some e
  get-append [] n e h = cc
  get-append (x ∷ es) zero e h = h
  get-append (x ∷ es) (suc n) e h = get-append es n e h

  more-Heard : {k : ℕ} → Heard events k → Heard (events ++ more) k
  more-Heard h = record {
    request = h.request;
    place = h.place;
    came = get-append events h.place _ h.came;
  }

  more-Owed :
      (k : ℕ) (m : PacketMessage) → Owed M host events k m → Owed M host (events ++ more) k m
  unfolding more-Heard
  more-Owed k m h = record {
    heard = more-Heard h.heard;
    packet = h.packet;
    reply = h.reply;
    same = h.same;
  }

  more-AllOwed :
      (sent : List (ℕ × PacketMessage))
      → AllOwed M host events sent
      → AllOwed M host (events ++ more) sent
  more-AllOwed [] all = tt
  more-AllOwed ((k, m) ∷ sent) (first, rest) = (more-Owed k m first, more-AllOwed sent rest)

  pub more-Fair : (s : Server M.Db) → Fair M host events s → Fair M host (events ++ more) s
  more-Fair s h = record {
    owed = more-AllOwed s.sent h.owed;
    heard = λ j k there. more-Heard (h.heard j k there);
  }
