-- ===== src/Exchange/Draw.antt =====
-- A client adds an element to a shared whiteboard: what the other clients get.
use xyzwhiteboard.Base.{
  ℕ, suc, ◌<◌, true, false, some, List, [], ◌∷◌, ◌++◌, ◌≡◌, ◌≢◌, refl, arith, sym, ap, ◌∙◌, ◌==◌,
  ==_iff, contains, if◌then◌else◌, Bool-cases, inl, inr, length, drop,
}
use mathlib.Core.List.{append_assoc}
use xyzwhiteboard.Base.Fail.{Result, ok}
use xyzwhiteboard.Element as Element
use xyzwhiteboard.Element.{WhiteboardElements}
use xyzwhiteboard.Element.RoundTrip.{to_protobuf_returns}
use xyzwhiteboard.Proto.{Element as Message}
use xyzwhiteboard.Action.{PacketMessage, action_of, get_broadcast}
use xyzwhiteboard.Packet.{WhiteboardPacket, Indeterminate}
use xyzwhiteboard.Packet.Build.{new_broadcast}
use xyzwhiteboard.Server.Mongo.{Mongo, Documented, WhiteboardDoc, push_elements, apply_operators}
use xyzwhiteboard.Server.State.{reliable, Server, Host, action_response}
use xyzwhiteboard.Server.Sessions.{find}
use xyzwhiteboard.Server.Sessions.Sets.{From, IsSocketSet}
use xyzwhiteboard.Server.Elements.{
  elements_packet, stored_elements, may_add, handle_add_element_request,
}
use xyzwhiteboard.Server.Elements.Broadcast.{to_all}
use xyzwhiteboard.Server.Elements.Add.{add_shared}
use xyzwhiteboard.Server.Connection as Connection
use xyzwhiteboard.Client.{Client}
use xyzwhiteboard.Client.Receive.Answers.{adds_element, message, next_id, send, sends}
use xyzwhiteboard.Server.State.{for_socket}
use xyzwhiteboard.Exchange.{exchange}
use xyzwhiteboard.Exchange.Steps.{exchange-one, drop-append}

not_same : (a b : ℕ) → a ≢ b → (a == b) ≡ false
not_same a b h = ground arith

-- A socket below the set gets nothing.
nothing_below :
    (b n : ℕ) (sockets : List ℕ) (p : WhiteboardPacket)
    → b < n
    → From n sockets
    → for_socket b (to_all sockets p) ≡ []
nothing_below b n [] p h rising = refl
nothing_below b n (x ∷ xs) p h rising =
    let (low, rest) = rising in
    rw (not_same x b (omega arith)) (nothing_below b (suc x) xs p (omega arith) rest)

-- Each socket of a set gets one packet, and no other socket gets one.
one_each :
    (b n : ℕ) (sockets : List ℕ) (p : WhiteboardPacket)
    → From n sockets
    → for_socket b (to_all sockets p) ≡ (if contains b sockets then p.packet ∷ [] else [])
unfolding contains
one_each b n [] p rising = refl
one_each b n (x ∷ xs) p rising =
    let (low, rest) = rising in
    elim (Bool-cases (x == b)) [
      | inl same ↦
          let e = (==_iff x b).0 same in
          rw same (
            ap (λ (ms : List PacketMessage). p.packet ∷ ms)
              (nothing_below b (suc x) xs p (omega arith) rest))
      | inr other ↦ rw other (one_each b (suc x) xs p rest)
    ]

module _ (M : Mongo) (D : Documented M) (host : Host) (write : PacketMessage → Result (Unit {0}))
    (writes : (m : PacketMessage) → write m ≡ ok tt) (e : Element.Indeterminate) (i : Indeterminate)
    (socket : ℕ) (c : Client) (s : Server M.Db) (oid : M.Oid) (doc : WhiteboardDoc)
    (sockets : List ℕ) (element : WhiteboardElements) where
  -- The element's message, and the whiteboard with it.
  abbrev pub drawn : Message
  drawn = (to_protobuf_returns element).0

  abbrev pub with_drawn : WhiteboardDoc
  with_drawn = apply_operators (push_elements (host.serialize_element drawn) ∷ []) doc

  -- The packet that goes to the session.
  abbrev pub shown : PacketMessage
  shown = (elements_packet M (reliable host) with_drawn (host.rand s.draws)).packet

  abbrev request : PacketMessage
  request = message write writes (adds_element element) c

  abbrev pub after : Client × Server M.Db
  after = exchange M (reliable host) e i (send write writes (adds_element element)) socket c s

  dispatched :
      Connection.handle_packet M (reliable host) request socket s
      ≡ handle_add_element_request M (reliable host) request socket s
  unfolding Connection.handle_packet
  dispatched = refl

  abbrev reply : ℕ × PacketMessage
  reply =
      (socket, (action_response (next_id write writes c) true "Element added successfully").packet)

  -- The server after the exchange, and what it wrote.
  served :
      (written : List (ℕ × PacketMessage))
      → (Connection.handle_packet M (reliable host) request socket s).1.sent ≡ s.sent ++ written
      → (after.1 ≡ (Connection.handle_packet M (reliable host) request socket s).1)
        × (drop (length s.sent) (Connection.handle_packet M (reliable host) request socket s).1.sent
            ≡ written)
  served written writes_them = (
    ap (λ (r : Client × Server M.Db). r.1)
        (exchange-one M (reliable host) e i (send write writes (adds_element element)) socket c s
          request written
          (ap (λ (r : Result (Unit {0}) × Client). r.1.sent)
            (sends write writes (adds_element element) c))
          writes_them),
    ap (λ (l : List (ℕ × PacketMessage)). drop (length s.sent) l) writes_them
        ∙ drop-append s.sent written,
  )

  -- What the server wrote to a socket meanwhile.
  abbrev pub got : ℕ → List PacketMessage
  got b = for_socket b (drop (length s.sent) after.1.sent)

  -- Where writes succeed, where protobuf reads back the element's text, and with a set of sockets
  -- that rise: a client adds an element to a stored whiteboard with a session, whose owner or active
  -- user it is. Then every other socket of the session gets one packet, with the elements from
  -- before and the new one at the end, a socket outside the session gets nothing, and the whiteboard
  -- is stored with the element.
  pub draw_exchange :
      M.read_oid c.whiteboard_id ≡ ok oid
      → D.whiteboard s.db oid ≡ some doc
      → may_add doc c.user_id ≡ true
      → find c.whiteboard_id s.whiteboard_sessions ≡ some sockets
      → IsSocketSet sockets
      → host.parse_element (host.serialize_element drawn) ≡ drawn
      → ((b : ℕ) → b ≢ socket → got b ≡ (if contains b sockets then shown ∷ [] else []))
        × ((get_broadcast (action_of shown)).elements
            ≡ stored_elements M (reliable host) doc ++ drawn ∷ [])
        × (D.whiteboard after.1.db oid ≡ some with_drawn)
  unfolding elements_packet new_broadcast stored_elements
  draw_exchange valid stored allowed session rising reads_back =
      let added =
        add_shared M D host request socket s oid valid doc stored allowed sockets session
          reads_back in
      let written : List (ℕ × PacketMessage) =
        reply ∷ to_all sockets (elements_packet M (reliable host) with_drawn (host.rand s.draws)) in
      let server = served written (
        ap (λ (r : Result (Unit {0}) × Server M.Db). r.1.sent) (dispatched ∙ added.0)
        ∙ append_assoc s.sent (reply ∷ []) _) in
      (
        λ b other.
            ap (λ (t : Server M.Db). for_socket b (drop (length s.sent) t.sent)) server.0
            ∙ ap (for_socket b) server.1
            ∙ rw (not_same socket b (λ same. other (sym same))) (
                one_each b 0 sockets
                  (elements_packet M (reliable host) with_drawn (host.rand s.draws)) rising.1),
        added.2,
        ap (λ (t : Server M.Db). D.whiteboard t.db oid)
              (server.0 ∙ ap (λ (r : Result (Unit {0}) × Server M.Db). r.1) (dispatched ∙ added.0))
            ∙ added.1,
      )
