-- ===== src/Exchange/Join.antt =====
-- A client joins a session: what client and server hold after it.
use xyzwhiteboard.Base.{
  ℕ, String, true, some, List, [], ◌∷◌, ◌++◌, ◌≡◌, ◌≢◌, refl, ap, ◌∙◌, ==_refl, with_member,
}
use mathlib.Core.List.{append_assoc}
use xyzwhiteboard.Base.Fail.{Result, ok}
use xyzwhiteboard.Element as Element
use xyzwhiteboard.Action.{PacketMessage}
use xyzwhiteboard.Packet.{Indeterminate}
use xyzwhiteboard.Server.Mongo.{Mongo, Documented, WhiteboardDoc}
use xyzwhiteboard.Server.State.{reliable, Server, Host, action_response}
use xyzwhiteboard.Server.Sessions.Laws.{connected, connected-add_socket_self}
use xyzwhiteboard.Server.Elements.{elements_packet}
use xyzwhiteboard.Server.Boards.{handle_join_session_request}
use xyzwhiteboard.Server.Boards.Session.{join_active}
use xyzwhiteboard.Server.Connection as Connection
use xyzwhiteboard.Client.{Client}
use xyzwhiteboard.Client.Receive.Answers.{joins_session, message, next_id, send, sends, noted}
use xyzwhiteboard.Exchange.{receive_all, exchange}
use xyzwhiteboard.Exchange.Steps.{exchange-one, receive-join, receive-elements, queued}

module _ (M : Mongo) (D : Documented M) (host : Host) (write : PacketMessage → Result (Unit {0}))
    (writes : (m : PacketMessage) → write m ≡ ok tt) (e : Element.Indeterminate) (i : Indeterminate)
    (socket : ℕ) (c : Client) (s : Server M.Db) (whiteboard_id : String) (oid : M.Oid)
    (doc : WhiteboardDoc) (ids : List ℕ) (valid : M.read_oid whiteboard_id ≡ ok oid)
    (stored : D.whiteboard s.db oid ≡ some doc) (known : c.user_id ≢ 0)
    (active : doc.active_user_ids ≡ some ids) where
  abbrev request : PacketMessage
  request = message write writes (joins_session whiteboard_id) c

  abbrev after_send : Client
  after_send = (send write writes (joins_session whiteboard_id) c).1

  abbrev server' : Server M.Db
  server' = (Connection.handle_packet M (reliable host) request socket s).1

  -- The client and the server after the exchange.
  abbrev pub after : Client × Server M.Db
  after =
      exchange M (reliable host) e i (send write writes (joins_session whiteboard_id)) socket c s

  dispatched :
      Connection.handle_packet M (reliable host) request socket s
      ≡ handle_join_session_request M (reliable host) request socket s
  unfolding Connection.handle_packet
  dispatched = refl

  abbrev drawn : PacketMessage
  drawn = (elements_packet M (reliable host) doc (host.rand s.draws)).packet

  abbrev reply : PacketMessage
  reply = (action_response (next_id write writes c) true whiteboard_id).packet

  abbrev shown : Client
  shown = record after_send {
    received_queue = after_send.received_queue ++ queued M (reliable host) e i drawn ∷ [];
  }

  ends : after ≡ (
    record shown {
      whiteboard_id = whiteboard_id;
      received_queue = shown.received_queue ++ queued M (reliable host) e i reply ∷ [];
    },
    server',
  )
  unfolding receive_all
  ends =
      let joined = join_active M D host request socket s oid doc valid stored known ids active in
      exchange-one M (reliable host) e i (send write writes (joins_session whiteboard_id)) socket c
        s request ((socket, drawn) ∷ (socket, reply) ∷ [])
        (ap (λ (r : Result (Unit {0}) × Client). r.1.sent)
          (sends write writes (joins_session whiteboard_id) c))
        (ap (λ (r : Result (Unit {0}) × Server M.Db). r.1.sent) (dispatched ∙ joined.0)
          ∙ append_assoc s.sent _ _)
      ∙ rw (==_refl socket) (
          ap
            (λ (r : Result (Unit {0}) × Client).
              (receive_all M (reliable host) e i (reply ∷ []) r.1, server'))
            (receive-elements M (reliable host) e i doc (host.rand s.draws) after_send)
          ∙ ap (λ (r : Result (Unit {0}) × Client). (r.1, server'))
              (receive-join M (reliable host) e i (next_id write writes c) whiteboard_id shown
                (noted write writes (joins_session whiteboard_id) c)))

  -- Where writes succeed and the client reads each packet by itself: a client with an id joins, by
  -- one call, the session of a stored whiteboard that has active ids. Then the client holds the
  -- whiteboard's id, its socket is connected to the whiteboard, and its user is an active one.
  pub join_exchange :
      (after.0.whiteboard_id ≡ whiteboard_id)
      × (connected whiteboard_id socket after.1.whiteboard_sessions ≡ true)
      × (D.whiteboard after.1.db oid
          ≡ some (record doc { active_user_ids = some (with_member c.user_id ids) }))
  join_exchange =
      let joined = join_active M D host request socket s oid doc valid stored known ids active in
      let server : (t : Server M.Db) × (after.1 ≡ t) = (
        _,
        ap (λ (r : Client × Server M.Db). r.1) ends
            ∙ ap (λ (r : Result (Unit {0}) × Server M.Db). r.1) (dispatched ∙ joined.0),
      ) in
      (
        ap (λ (r : Client × Server M.Db). r.0.whiteboard_id) ends,
        ap (λ (t : Server M.Db). connected whiteboard_id socket t.whiteboard_sessions) server.1
            ∙ connected-add_socket_self whiteboard_id socket s.whiteboard_sessions,
        ap (λ (t : Server M.Db). D.whiteboard t.db oid) server.1 ∙ joined.1,
      )
