-- ===== src/Server/Elements/Modify.antt =====
-- handle_modify_element_request of src/server/server.cpp, against the documented behaviour of the
-- database.
use xyzwhiteboard.Base.{
  ℕ, String, Bool, true, false, Option, none, some, List, [], ◌∷◌, ◌++◌, ◌≡◌, refl, Option-cases,
  Bool-cases, inl, inr, ◌⊎◌,
}
use xyzwhiteboard.Base.Fail.{Result, ok, thrown, Result-cases}
use xyzwhiteboard.Action.{PacketMessage, action_of, get_modify_element, element_or_default}
use xyzwhiteboard.Server.Mongo.{Mongo, Documented, WhiteboardDoc}
use xyzwhiteboard.Server.State.{reliable, Server, Host, action_response, run}
use xyzwhiteboard.Server.Elements.{
  is_active, stores_element, replace_element, modify_element_on, handle_modify_element_request,
}

abbrev orig_text : Host → PacketMessage → String
orig_text host packet =
    host.serialize_element (element_or_default (get_modify_element (action_of packet)).orig_element)

module _ (M : Mongo) (D : Documented M) (host : Host) where
  -- With sockets whose writes succeed: a user who is active in the session of a stored whiteboard
  -- that holds the original element gets no reply: the database refuses the update, which names
  -- `elements` twice, so the handler throws, and nothing has changed.
  pub modify_throws :
      (packet : PacketMessage) (socket : ℕ) (s : Server M.Db) (oid : M.Oid) (doc : WhiteboardDoc)
      (elements : List String)
      → M.read_oid (get_modify_element (action_of packet)).whiteboard_id ≡ ok oid
      → D.whiteboard s.db oid ≡ some doc
      → is_active doc (get_modify_element (action_of packet)).user_id ≡ true
      → doc.elements ≡ some elements
      → stores_element (orig_text host packet) elements ≡ true
      → handle_modify_element_request M (reliable host) packet socket s
        ≡ (thrown D.conflict_error, s)
  unfolding handle_modify_element_request run
  modify_throws packet socket s oid doc elements valid stored active held found =
      rw (valid, D.find_lem, stored, active, held, found) (rw (D.update_conflict _ _ _ refl) refl)

  -- The state is left alone, or one refusal is sent to the socket.
  abbrev pub Refused : ℕ → Server M.Db → Result (Unit {0}) × Server M.Db → Type 0
  Refused socket s r =
      (r.1 ≡ s)
      ⊎ ((packet_id : ℕ) × (message : String) × (r ≡ (
        ok tt,
        record s {
          sent = s.sent ++ (socket, (action_response packet_id false message).packet) ∷ [];
        },
      )))

  replace_element-Refused :
      (socket packet_id : ℕ) (whiteboard_id : String) (oid : M.Oid) (orig modi : String) (b : Bool)
      (s : Server M.Db)
      → Refused socket s
          (replace_element M (reliable host) socket packet_id whiteboard_id oid orig modi b s)
  unfolding replace_element run
  replace_element-Refused socket packet_id whiteboard_id oid orig modi false s =
      inr (packet_id, _, refl)
  replace_element-Refused socket packet_id whiteboard_id oid orig modi true s =
      inl (rw (D.update_conflict _ _ _ refl) refl)

  modify_element_on-Refused :
      (socket packet_id : ℕ) (whiteboard_id : String) (oid : M.Oid) (user_id : ℕ)
      (orig modi : String) (found : Option WhiteboardDoc) (s : Server M.Db)
      → Refused socket s (
          modify_element_on M
            (reliable host)
            socket
            packet_id
            whiteboard_id
            oid
            user_id
            orig
            modi
            found
            s)
  unfolding modify_element_on run
  modify_element_on-Refused socket packet_id whiteboard_id oid user_id orig modi none s =
      inr (packet_id, _, refl)
  modify_element_on-Refused socket packet_id whiteboard_id oid user_id orig modi (some doc) s =
      elim (Bool-cases (is_active doc user_id)) [
        | inl active ↦ elim (Option-cases doc.elements) [
          | inl absent ↦ inl (rw (active, absent) refl)
          | inr (elements, held) ↦
              rw (active, held)
                (replace_element-Refused socket packet_id whiteboard_id oid orig modi
                  (stores_element orig elements) s)
        ]
        | inr idle ↦ inl (rw idle refl)
      ]

  -- With sockets whose writes succeed: whatever the request and the state, a request to modify an
  -- element changes no document, no session and no user: it leaves the whole state alone, or sends
  -- one refusal to its sender.
  pub modify_refuses :
      (packet : PacketMessage) (socket : ℕ) (s : Server M.Db)
      → Refused socket s (handle_modify_element_request M (reliable host) packet socket s)
  unfolding handle_modify_element_request run
  modify_refuses packet socket s =
      let request = get_modify_element (action_of packet) in
      elim (Result-cases (M.read_oid request.whiteboard_id)) [
        | inl (oid, valid) ↦
            rw (valid, D.find_lem)
              (modify_element_on-Refused socket packet.packet_id request.whiteboard_id oid
                request.user_id _ _ (D.whiteboard s.db oid) s)
        | inr (e, invalid) ↦ inl (rw invalid refl)
      ]
