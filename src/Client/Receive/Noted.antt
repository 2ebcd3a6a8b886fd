-- ===== src/Client/Receive/Noted.antt =====
-- What a client of src/client/client.cpp has noted of the packets that it sent stays noted.
use xyzwhiteboard.Base.{
  String, ℕ, zero, suc, ◌+◌, ◌%◌, ◌^◌, ◌<◌, ◌≤◌, some, List, [], ◌∷◌, ◌++◌, ◌≡◌, refl, arith, sym,
  ◌∙◌, Option-cases, inl, inr, get_elem?,
}
use xyzwhiteboard.Base.Fail.{Result, ok, Action, throw}
use xyzwhiteboard.Element as Element
use xyzwhiteboard.Action.{PacketMessage, ActionResponse, action_of, get_action_response}
use xyzwhiteboard.Packet.{
  WhiteboardPacketType, Indeterminate, other, to_uint32, of_uint32, create_whiteboard,
  create_session, join_session, quit_session, add_element, modify_element, delete_element,
  save_whiteboard, register_request, login_request,
}
use xyzwhiteboard.Client.{Client, find_type}
use xyzwhiteboard.Client.Receive.{
  sent_type, on_response, handle_action_response, handle_temp_id_response, handle_by_type,
  handle_packet,
}
use xyzwhiteboard.Client.Receive.Answers.{
  find_type-set_type, Request, type_of, send, message, next_id, sends, noted,
}
use xyzwhiteboard.Server.Keeps.{Keeps, Keeps-pure, Keeps-if, Keeps-bind, Both, kept}

-- The client has the packet's type under its id, which its counter has reached.
pub record Noted (c : Client) (m : PacketMessage) : Type 0 where
  pub type : WhiteboardPacketType
  pub typed : m.packet_type ≡ to_uint32 type
  pub found : find_type m.packet_id c.send_queue ≡ some type
  pub reached : m.packet_id ≤ c.packet_counter

-- What was noted before is still noted.
pub record Grows (c d : Client) : Type 0 where
  pub noted : (m : PacketMessage) → Noted c m → Noted d m

abbrev pub AllNoted : Client → List PacketMessage → Type 0
AllNoted c [] = Unit {0}
AllNoted c (m ∷ sent) = Noted c m × AllNoted c sent

pub AllNoted-append :
    (c : Client) (sent : List PacketMessage) (m : PacketMessage)
    → AllNoted c sent
    → Noted c m
    → AllNoted c (sent ++ m ∷ [])
AllNoted-append c [] m all new = (new, tt)
AllNoted-append c (n ∷ sent) m (first, rest) new = (first, AllNoted-append c sent m rest new)

pub AllNoted-Grows :
    (c d : Client) (sent : List PacketMessage) → Grows c d → AllNoted c sent → AllNoted d sent
AllNoted-Grows c d [] grows all = tt
AllNoted-Grows c d (m ∷ sent) grows (first, rest) =
    (grows.noted m first, AllNoted-Grows c d sent grows rest)

pub AllNoted-at :
    (c : Client) (sent : List PacketMessage) (n : ℕ) (m : PacketMessage)
    → AllNoted c sent
    → get_elem? sent n ≡ some m
    → Noted c m
AllNoted-at c [] n m all h = cc
AllNoted-at c (l ∷ sent) zero m (first, rest) h = let e : l ≡ m = cc in rw (← e) first
AllNoted-at c (l ∷ sent) (suc n) m (first, rest) h = AllNoted-at c sent n m rest h

-- A client whose types are kept.
kept_types :
    (c d : Client)
    → ((id : ℕ) (type : WhiteboardPacketType)
        → find_type id c.send_queue ≡ some type
        → find_type id d.send_queue ≡ some type)
    → c.packet_counter ≡ d.packet_counter
    → Grows c d
kept_types c d found counter = record {
  noted = λ m h. record {
    type = h.type;
    typed = h.typed;
    found = found m.packet_id h.type h.found;
    reached = let r = h.reached in omega (arith, r, counter);
  };
}

Grows-trans : {b c d : Client} → Grows b c → Grows c d → Grows b d
Grows-trans f g = record { noted = λ m h. g.noted m (f.noted m h) }

-- Everything that a client does with a packet that it receives keeps what it has noted.
module _ (b : Client) where
  abbrev Grown : Client → Type 0
  Grown c = Grows b c × (c.sent ≡ b.sent)

  -- An action that leaves the queue and the counter alone.
  leaves :
      {A : Type 0} (m : Action Client A)
      → ((c : Client) → (m c).1.send_queue ≡ c.send_queue)
      → ((c : Client) → (m c).1.packet_counter ≡ c.packet_counter)
      → ((c : Client) → (m c).1.sent ≡ c.sent)
      → Keeps (Both Grown) m m
  leaves m queue counter written = kept Grown m (λ c (grows, same). (
    Grows-trans grows
        (kept_types c (m c).1 (λ id type found. rw (queue c) found) (sym (counter c))),
    written c ∙ same,
  ))

  sent_type-Grows :
      (id : ℕ) (c : Client) → Grows c (sent_type id c).1 × ((sent_type id c).1.sent ≡ c.sent)
  unfolding sent_type
  sent_type-Grows id c = elim (Option-cases (find_type id c.send_queue)) [
    | inr (type, found) ↦ rw (found, sent_type) (kept_types c c (λ j t h. h) refl, refl)
    | inl absent ↦
        rw (absent, sent_type)
          (
            kept_types c _ (λ j t h. ground (arith, find_type-set_type id j (other 0) c.send_queue))
                refl,
            refl,
          )
  ]

  fails : (what : String) → Keeps (Both Grown) (throw {A = Unit {0}} what) (throw what)
  fails what = leaves _ (λ c. refl) (λ c. refl) (λ c. refl)

  on_response-Keeps :
      (type : WhiteboardPacketType) (response : ActionResponse)
      → Keeps (Both Grown) (on_response type response) (on_response type response)
  unfolding on_response
  on_response-Keeps create_whiteboard r =
      Keeps-if r.success (leaves _ (λ c. refl) (λ c. refl) (λ c. refl)) (fails _)
  on_response-Keeps create_session r = Keeps-if r.success (Keeps-pure tt) (fails _)
  on_response-Keeps join_session r =
      Keeps-if r.success (leaves _ (λ c. refl) (λ c. refl) (λ c. refl)) (fails _)
  on_response-Keeps quit_session r = Keeps-if r.success (Keeps-pure tt) (fails _)
  on_response-Keeps add_element r = Keeps-if r.success (Keeps-pure tt) (fails _)
  on_response-Keeps modify_element r = Keeps-if r.success (Keeps-pure tt) (fails _)
  on_response-Keeps delete_element r = Keeps-if r.success (Keeps-pure tt) (fails _)
  on_response-Keeps save_whiteboard r = Keeps-if r.success (Keeps-pure tt) (fails _)
  on_response-Keeps login_request r = Keeps-if r.success (Keeps-pure tt) (fails _)
  on_response-Keeps register_request r = Keeps-if r.success (Keeps-pure tt) (fails _)
  on_response-Keeps _ r = Keeps-pure tt

  temp_id-Keeps :
      (packet : PacketMessage)
      → Keeps (Both Grown) (handle_temp_id_response packet) (handle_temp_id_response packet)
  unfolding handle_temp_id_response
  temp_id-Keeps packet = leaves _ (λ c. ground arith) (λ c. ground arith) (λ c. ground arith)

  action_response-Keeps :
      (packet : PacketMessage)
      → Keeps (Both Grown) (handle_action_response packet) (handle_action_response packet)
  unfolding handle_action_response
  action_response-Keeps packet =
      Keeps-bind
        (kept Grown (sent_type packet.packet_id) (λ c (grows, same).
          let (grows', same') = sent_type-Grows packet.packet_id c in
          (Grows-trans grows grows', same' ∙ same)))
        λ type. on_response-Keeps type (get_action_response (action_of packet))

  module _ (e : Element.Indeterminate) (i : Indeterminate) where
    by_type-Keeps :
        (type : WhiteboardPacketType) (packet : PacketMessage)
        → Keeps (Both Grown) (handle_by_type e i type packet) (handle_by_type e i type packet)
    unfolding handle_by_type
    by_type-Keeps WhiteboardPacketType.action_response packet = action_response-Keeps packet
    by_type-Keeps WhiteboardPacketType.temp_id_response packet = temp_id-Keeps packet
    by_type-Keeps WhiteboardPacketType.broadcast packet = Keeps-pure tt
    by_type-Keeps _ packet = fails _

    receive-Keeps :
        (packet : PacketMessage)
        → Keeps (Both Grown) (handle_packet e i packet) (handle_packet e i packet)
    unfolding handle_packet
    receive-Keeps packet =
        Keeps-bind (by_type-Keeps (of_uint32 packet.packet_type) packet)
          λ done. leaves _ (λ c. refl) (λ c. refl) (λ c. refl)

module _ (e : Element.Indeterminate) (i : Indeterminate) (packet : PacketMessage) (c : Client) where
  receive-Grown : Grown c (handle_packet e i packet c).1
  receive-Grown =
      ((receive-Keeps c e i packet).after c c (refl, (kept_types c c (λ j t h. h) refl, refl))).1.1

  pub receive-Grows : Grows c (handle_packet e i packet c).1
  receive-Grows = receive-Grown.0

  pub receive-sent : (handle_packet e i packet c).1.sent ≡ c.sent
  receive-sent = receive-Grown.1

module _ (write : PacketMessage → Result (Unit {0}))
    (writes : (m : PacketMessage) → write m ≡ ok tt) (request : Request) (c : Client)
    (few : c.packet_counter + 1 < 2 ^ 32) where
  new_id : (c.packet_counter + 1) % 2 ^ 32 ≡ c.packet_counter + 1
  new_id = omega (arith, few)

  pub send-Grows : Grows c (send write writes request c).1
  send-Grows = rw (sends write writes request c) (record {
    noted = λ m h.
        let r = h.reached in
        let f = h.found in
        record {
          type = h.type;
          typed = h.typed;
          found = ground (
            arith,
            few,
            find_type-set_type (next_id write writes c) m.packet_id (type_of request) c.send_queue,
          );
          reached = omega (arith, r, new_id);
        };
  })

  pub send-Noted : Noted (send write writes request c).1 (message write writes request c)
  send-Noted = record {
    type = type_of request;
    typed = refl;
    found = noted write writes request c;
    reached = rw (sends write writes request c) (omega arith);
  }
