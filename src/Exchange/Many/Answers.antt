-- ===== src/Exchange/Many/Answers.antt =====
-- Which request a client takes a response for, among many clients.
use xyzwhiteboard.Base.{
  ℕ, zero, suc, ◌+◌, ◌^◌, ◌<◌, Bool, some, List, [], ◌∷◌, ◌++◌, ◌≡◌, refl, arith, ap, sym, ◌∙◌,
  subst, ◌==◌, ==_iff, if◌then◌else◌, Bool-cases, inl, inr, get_elem?,
}
use xyzwhiteboard.Base.Fail.{Result, ok}
use xyzwhiteboard.Element as Element
use xyzwhiteboard.Action.{PacketMessage, action_of, get_action_response}
use xyzwhiteboard.Packet.{WhiteboardPacket, WhiteboardPacketType, Indeterminate, to_uint32}
use xyzwhiteboard.Packet.Build.{new_action_response, new_temp_id_response, new_broadcast}
use xyzwhiteboard.Client.{Client, find_type}
use xyzwhiteboard.Client.Receive as Receive
use xyzwhiteboard.Client.Receive.{on_response, handle_action_response}
use xyzwhiteboard.Client.Receive.Answers.{Request, send, message, matched}
use xyzwhiteboard.Client.Receive.Answers as Answers
use xyzwhiteboard.Client.Receive.Noted.{
  Noted, Grows, AllNoted, AllNoted-append, AllNoted-Grows, AllNoted-at, receive-Grows, receive-sent,
  send-Grows, send-Noted,
}
use xyzwhiteboard.Server.Mongo.{Mongo}
use xyzwhiteboard.Server.State.{Server, Host, for_socket}
use xyzwhiteboard.Server.Elements.{elements_packet}
use xyzwhiteboard.Server.Stable.{Reply, responds, announces, shows}
use xyzwhiteboard.Server.Connection.{serve}
use xyzwhiteboard.Server.Connection.Replies.{serve-one, Owed, AllOwed, serve-AllOwed}
use xyzwhiteboard.Server.State.{fresh_server}
use xyzwhiteboard.Exchange.Many.{
  Many, update, next, Step, sends, handles, loses, receives, Reach, here, later, begin,
}

-- What holds of a client's place after an update.
update_lem :
    {A : Type 0} (P : ℕ → A → Type 0) (k : ℕ) (a : A) (f : ℕ → A)
    → P k a
    → ((j : ℕ) → P j (f j))
    → (j : ℕ) → P j (update k a f j)
update_lem P k a f new old j = elim (Bool-cases (k == j)) [
  | inl same ↦ rw same (subst (λ i. P i a) ((==_iff k j).0 same) new)
  | inr other ↦ rw other (old j)
]

AllHandled : (ℕ → Client) → List (ℕ × PacketMessage) → Type 0
AllHandled clients [] = Unit {0}
AllHandled clients ((k, m) ∷ events) = Noted (clients k) m × AllHandled clients events

AllHandled-append :
    (clients : ℕ → Client) (events : List (ℕ × PacketMessage)) (k : ℕ) (m : PacketMessage)
    → AllHandled clients events
    → Noted (clients k) m
    → AllHandled clients (events ++ (k, m) ∷ [])
unfolding AllHandled
AllHandled-append clients [] k m all new = (new, tt)
AllHandled-append clients (e ∷ events) k m (first, rest) new =
    (first, AllHandled-append clients events k m rest new)

AllHandled-Grows :
    (clients after : ℕ → Client) (events : List (ℕ × PacketMessage))
    → ((k : ℕ) → Grows (clients k) (after k))
    → AllHandled clients events
    → AllHandled after events
unfolding AllHandled
AllHandled-Grows clients after [] grows all = tt
AllHandled-Grows clients after ((k, m) ∷ events) grows (first, rest) =
    ((grows k).noted m first, AllHandled-Grows clients after events grows rest)

AllHandled-at :
    (clients : ℕ → Client) (events : List (ℕ × PacketMessage)) (n k : ℕ) (m : PacketMessage)
    → AllHandled clients events
    → get_elem? events n ≡ some (k, m)
    → Noted (clients k) m
unfolding AllHandled
AllHandled-at clients [] n k m all h = cc
AllHandled-at clients ((j, l) ∷ events) zero k m (first, rest) h =
    let e : j ≡ k = cc in let e' : l ≡ m = cc in rw (← e, ← e') first
AllHandled-at clients (e ∷ events) (suc n) k m (first, rest) h =
    AllHandled-at clients events n k m rest h

same_client : (c : Client) → Grows c c
same_client c = record { noted = λ m h. h }

module _ (M : Mongo) (host : Host) where
  first-or-later :
      (events : List (ℕ × PacketMessage)) (j k : ℕ) (l m : PacketMessage)
      (rest : List PacketMessage) (n : ℕ)
      → j ≡ k
      → Owed M host events j l
      → ((i : ℕ) → get_elem? rest i ≡ some m → Owed M host events k m)
      → get_elem? (l ∷ rest) n ≡ some m
      → Owed M host events k m
  first-or-later events j k l m rest zero same first others h =
      let e : l ≡ m = cc in rw (← same, ← e) first
  first-or-later events j k l m rest (suc n) same first others h = others n h

  AllOwed-at :
      (events sent : List (ℕ × PacketMessage)) (k n : ℕ) (m : PacketMessage)
      → AllOwed M host events sent
      → get_elem? (for_socket k sent) n ≡ some m
      → Owed M host events k m
  AllOwed-at events [] k n m all h = cc
  AllOwed-at events ((j, l) ∷ sent) k n m (first, rest) h =
      let Place = λ (b : Bool).
        get_elem? (if b then l ∷ for_socket k sent else for_socket k sent) n ≡ some m in
      elim (Bool-cases (j == k)) [
        | inl same ↦
            first-or-later events j k l m (for_socket k sent) n ((==_iff j k).0 same) first
              (λ i. AllOwed-at events sent k i m rest) (subst Place same h)
        | inr other ↦ AllOwed-at events sent k n m rest (subst Place other h)
      ]

  response_id :
      (packet_id : ℕ) (p : WhiteboardPacket)
      → Reply M host packet_id p
      → p.packet.packet_type ≡ to_uint32 WhiteboardPacketType.action_response
      → p.packet.packet_id ≡ packet_id
  unfolding new_action_response new_temp_id_response elements_packet new_broadcast
  response_id packet_id p (responds success text) typed = refl
  response_id packet_id p (announces success uid id) typed = absurd (omega arith)
  response_id packet_id p (shows doc id) typed = absurd (omega arith)

module _ (M : Mongo) (host : Host) (e : Element.Indeterminate) (i : Indeterminate)
    (write : PacketMessage → Result (Unit {0}))
    (writes : (m : PacketMessage) → write m ≡ ok tt) where
  record Inv (db : M.Db) (r : Many M.Db) : Type 0 where
    noted : (k : ℕ) → AllNoted (r.clients k) (r.clients k).sent
    handled : AllHandled r.clients r.handled
    same : r.server ≡ serve M host r.handled (fresh_server db)

  -- The clients after one of them has changed to a client that has noted as much.
  Inv-client :
      {db : M.Db} (r : Many M.Db) (k : ℕ) (c : Client) (received : ℕ → ℕ)
      → Grows (r.clients k) c
      → AllNoted c c.sent
      → Inv db r
      → Inv db (record r { clients = update k c r.clients; received = received })
  Inv-client r k c received grows noted inv = record {
    noted = update_lem (λ j d. AllNoted d d.sent) k c r.clients noted inv.noted;
    handled =
        AllHandled-Grows r.clients (update k c r.clients) r.handled
          (update_lem (λ j d. Grows (r.clients j) d) k c r.clients grows
            (λ j. same_client (r.clients j)))
          inv.handled;
    same = inv.same;
  }

  sent-AllNoted :
      (c : Client) (request : Request)
      → c.packet_counter + 1 < 2 ^ 32
      → AllNoted c c.sent
      → AllNoted (send write writes request c).1 (send write writes request c).1.sent
  sent-AllNoted c request few all =
      let d = (send write writes request c).1 in
      subst (AllNoted d)
        (sym (
          ap (λ (r : Result (Unit {0}) × Client). r.1.sent) (Answers.sends write writes request c)))
        (AllNoted-append d c.sent (message write writes request c)
          (AllNoted-Grows c d c.sent (send-Grows write writes request c few) all)
          (send-Noted write writes request c few))

  Step-Inv : {db : M.Db} {p q : Many M.Db} → Step M host e i write writes p q → Inv db p → Inv db q
  Step-Inv (sends r k request few) inv =
      Inv-client r k (send write writes request (r.clients k)).1 r.received
        (send-Grows write writes request (r.clients k) few)
        (sent-AllNoted (r.clients k) request few (inv.noted k)) inv
  Step-Inv (handles r k m at) inv = record {
    noted = inv.noted;
    handled =
        AllHandled-append r.clients r.handled k m inv.handled
          (AllNoted-at (r.clients k) (r.clients k).sent (r.arrived k) m (inv.noted k) at);
    same = serve-one M host _ r.handled k m r.server inv.same;
  }
  Step-Inv (loses r k) inv = record { noted = inv.noted; handled = inv.handled; same = inv.same }
  Step-Inv (receives r k m at) inv =
      let c = r.clients k in
      let d = (Receive.handle_packet e i m c).1 in
      Inv-client r k d (next k r.received) (receive-Grows e i m c)
        (subst (AllNoted d) (sym (receive-sent e i m c))
          (AllNoted-Grows c d c.sent (receive-Grows e i m c) (inv.noted k)))
        inv

  Reach-Inv :
      (clients : ℕ → Client) (db : M.Db) {r : Many M.Db}
      → ((k : ℕ) → (clients k).sent ≡ [])
      → Reach M host e i write writes (begin clients db) r
      → Inv db r
  unfolding serve AllHandled
  Reach-Inv clients db new here = record { noted = λ k. rw (new k) tt; handled = tt; same = refl }
  Reach-Inv clients db new (later reach step) = Step-Inv step (Reach-Inv clients db new reach)

  -- A packet that came in on the socket and that the client takes the response for.
  pub record Matched (r : Many M.Db) (k : ℕ) (m : PacketMessage) : Type 0 where
    pub request : PacketMessage
    pub place : ℕ
    pub came : get_elem? r.handled place ≡ some (k, request)
    pub answers : m.packet_id ≡ request.packet_id
    pub type : WhiteboardPacketType
    pub typed : request.packet_type ≡ to_uint32 type
    pub taken :
        handle_action_response m (r.clients k)
        ≡ on_response type (get_action_response (action_of m)) (r.clients k)

  -- With many clients, which have written nothing yet, whose writes succeed and whose counters do
  -- not wrap around, and a new server:
  -- however their requests, the server's handlers, its responses and its lost packets and writes
  -- interleave, and whatever the database answers, each action response written to a socket has the
  -- id of a packet of that socket's client that the server handled, and the client takes it for the
  -- answer to a request of that packet's type.
  pub Reach-Matched :
      (clients : ℕ → Client) (db : M.Db) {r : Many M.Db}
      → ((k : ℕ) → (clients k).sent ≡ [])
      → Reach M host e i write writes (begin clients db) r
      → (k n : ℕ) (m : PacketMessage) → get_elem? (for_socket k r.server.sent) n ≡ some m
      → m.packet_type ≡ to_uint32 WhiteboardPacketType.action_response
      → Matched r k m
  Reach-Matched clients db {r} new reach k n m at typed =
      let inv = Reach-Inv clients db new reach in
      let all =
        subst (λ (s : Server M.Db). AllOwed M host r.handled s.sent) (sym inv.same)
          (serve-AllOwed M host r.handled db) in
      let owed = AllOwed-at M host r.handled r.server.sent k n m all at in
      let asked = owed.heard in
      let noted =
        AllHandled-at r.clients r.handled asked.place k asked.request inv.handled asked.came in
      let id : m.packet_id ≡ asked.request.packet_id =
        ap (λ (l : PacketMessage). l.packet_id) owed.same
        ∙ response_id M host asked.request.packet_id owed.packet owed.reply
            (sym (ap (λ (l : PacketMessage). l.packet_type) owed.same) ∙ typed) in
      record {
        request = asked.request;
        place = asked.place;
        came = asked.came;
        answers = id;
        type = noted.type;
        typed = noted.typed;
        taken = matched m (r.clients k) noted.type (
            subst (λ (j : ℕ). find_type j (r.clients k).send_queue ≡ some noted.type) (sym id)
              noted.found);
      }
