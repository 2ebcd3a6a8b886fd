-- ===== src/Server/Elements/Add.antt =====
-- handle_add_element_request of src/server/server.cpp.
use mathlib.Core.List.{map-append}
use xyzwhiteboard.Base.{
  ℕ, ◌+◌, String, true, false, none, some, List, [], ◌∷◌, ◌++◌, ◌≡◌, ◌≢◌, refl, Option-cases, inl,
  inr,
}
use xyzwhiteboard.Base.Fail.{ok}
use xyzwhiteboard.Proto.{Element}
use xyzwhiteboard.Action.{
  PacketMessage, AddElementRequest, action_of, get_add_element, element_or_default,
}
use xyzwhiteboard.Server.Mongo.{
  Mongo, Documented, WhiteboardDoc, Operator, push_elements, apply_operators,
}
use xyzwhiteboard.Server.Mongo.Laws.{whiteboard-updated_self, whiteboard-updated_ne}
use xyzwhiteboard.Server.Sessions.{find}
use xyzwhiteboard.Server.Sessions.Laws.{shared_of_find, unshared_of_find}
use xyzwhiteboard.Server.State.{reliable, Server, Host, action_response, run}
use xyzwhiteboard.Server.Elements.{
  may_add, stored_elements, elements_packet, handle_add_element_request,
}
use xyzwhiteboard.Server.Elements.Broadcast.{to_all, broadcast_lem}

abbrev request : PacketMessage → AddElementRequest
request packet = get_add_element (action_of packet)

abbrev element_text : Host → PacketMessage → String
element_text host packet = host.serialize_element (element_or_default (request packet).element)

abbrev push : Host → PacketMessage → List Operator
push host packet = push_elements (element_text host packet) ∷ []

abbrev added_reply : ℕ → PacketMessage → ℕ × PacketMessage
added_reply socket packet =
    (socket, (action_response packet.packet_id true "Element added successfully").packet)

stored_elements-push :
    (M : Mongo) (host : Host) (doc : WhiteboardDoc) (text : String) (e : Element)
    → host.parse_element text ≡ e
    → stored_elements M (reliable host) (apply_operators (push_elements text ∷ []) doc)
      ≡ stored_elements M (reliable host) doc ++ e ∷ []
unfolding stored_elements
stored_elements-push M host doc text e reads_back = elim (Option-cases doc.elements) [
  | inl absent ↦ rw (absent, reads_back) refl
  | inr (elements, held) ↦
      rw held (rw (map-append host.parse_element elements (text ∷ []), reads_back) refl)
]

module _ (M : Mongo) (D : Documented M) (host : Host) (packet : PacketMessage) (socket : ℕ)
    (s : Server M.Db) (oid : M.Oid)
    (valid : M.read_oid (request packet).whiteboard_id ≡ ok oid) where
  -- With sockets whose writes succeed: a request for a whiteboard that is not stored changes
  -- nothing but that its sender is refused.
  pub add_missing :
      D.whiteboard s.db oid ≡ none
      → handle_add_element_request M (reliable host) packet socket s ≡ (
        ok tt,
        record s {
          sent =
              s.sent
              ++ (
                socket,
                (action_response packet.packet_id false
                    "User is not authorized to add element or whiteboard not found").packet,
              )
                ∷ [];
        },
      )
  unfolding handle_add_element_request run
  add_missing missing = rw (valid, D.find_lem, missing) refl

  -- With sockets whose writes succeed: on a stored whiteboard without a session, the request of a
  -- user who is neither active nor the owner changes nothing at all, and no reply is sent.
  pub add_unauthorized :
      (doc : WhiteboardDoc)
      → D.whiteboard s.db oid ≡ some doc
      → may_add doc (request packet).user_id ≡ false
      → find (request packet).whiteboard_id s.whiteboard_sessions ≡ none
      → handle_add_element_request M (reliable host) packet socket s ≡ (ok tt, s)
  unfolding handle_add_element_request run
  add_unauthorized doc stored denied absent =
      rw (valid, D.find_lem, stored, denied, unshared_of_find _ s.whiteboard_sessions absent) refl

  -- With sockets whose writes succeed: on a stored whiteboard with a session, a user who is neither
  -- active nor the owner gets no reply and stores nothing, but still makes the server broadcast the
  -- elements to the session.
  add_unauthorized_shared :
      (doc : WhiteboardDoc) (sockets : List ℕ)
      → D.whiteboard s.db oid ≡ some doc
      → may_add doc (request packet).user_id ≡ false
      → find (request packet).whiteboard_id s.whiteboard_sessions ≡ some sockets
      → handle_add_element_request M (reliable host) packet socket s ≡ (
        ok tt,
        record s {
          sent =
              s.sent ++ to_all sockets (elements_packet M (reliable host) doc (host.rand s.draws));
          draws = s.draws + 1;
        },
      )
  unfolding handle_add_element_request run
  add_unauthorized_shared doc sockets stored denied session =
      rw (valid, D.find_lem, stored, denied, shared_of_find _ s.whiteboard_sessions session)
        (broadcast_lem M D host _ s oid doc sockets valid stored session)

  module _ (doc : WhiteboardDoc) (stored : D.whiteboard s.db oid ≡ some doc)
      (allowed : may_add doc (request packet).user_id ≡ true) where
    abbrev doc' : WhiteboardDoc
    doc' = apply_operators (push host packet) doc

    -- With sockets whose writes succeed: on a stored whiteboard without a session, the element of
    -- an active user or of the owner goes to the end of the elements, and its sender gets one
    -- reply.
    pub add_private :
        find (request packet).whiteboard_id s.whiteboard_sessions ≡ none
        → (handle_add_element_request M (reliable host) packet socket s ≡ (
          ok tt,
          record s {
            db = D.updated s.db oid (push host packet);
            sent = s.sent ++ added_reply socket packet ∷ [];
          },
        ))
          × (D.whiteboard (D.updated s.db oid (push host packet)) oid ≡ some doc')
    unfolding handle_add_element_request run
    add_private absent = (
      rw (valid, D.find_lem, stored, allowed)
          (rw (D.update_lem _ _ _ refl)
            (rw (unshared_of_find _ s.whiteboard_sessions absent) refl)),
      whiteboard-updated_self D s.db oid _ stored,
    )

    -- With sockets whose writes succeed: on a stored whiteboard with a session, the element of an
    -- active user or of the owner goes to the end of the elements. Its sender gets the reply, and
    -- then every socket of the session one packet with the elements from before and the new one, if
    -- protobuf reads back what it wrote. No other whiteboard changes.
    pub add_shared :
        (sockets : List ℕ)
        → find (request packet).whiteboard_id s.whiteboard_sessions ≡ some sockets
        → host.parse_element (element_text host packet)
          ≡ element_or_default (request packet).element
        → (handle_add_element_request M (reliable host) packet socket s ≡ (
          ok tt,
          record s {
            db = D.updated s.db oid (push host packet);
            sent =
                (s.sent ++ added_reply socket packet ∷ [])
                ++ to_all sockets (elements_packet M (reliable host) doc' (host.rand s.draws));
            draws = s.draws + 1;
          },
        ))
          × (D.whiteboard (D.updated s.db oid (push host packet)) oid ≡ some doc')
          × (stored_elements M (reliable host) doc'
              ≡ stored_elements M (reliable host) doc
                ++ element_or_default (request packet).element ∷ [])
          × ((p : M.Oid)
              → oid ≢ p
              → D.whiteboard (D.updated s.db oid (push host packet)) p ≡ D.whiteboard s.db p)
    unfolding handle_add_element_request run stored_elements
    add_shared sockets session reads_back = (
      rw (valid, D.find_lem, stored, allowed)
          (rw (D.update_lem _ _ _ refl) (
            rw (shared_of_find _ s.whiteboard_sessions session) (
              broadcast_lem M D host _ _ oid doc' sockets valid
                (whiteboard-updated_self D s.db oid _ stored) session))),
      whiteboard-updated_self D s.db oid _ stored,
      stored_elements-push M (reliable host) doc _ _ reads_back,
      λ p other. whiteboard-updated_ne D s.db oid _ p other,
    )
