-- ===== src/Server/Connection/Disconnect.antt =====
-- A client that goes away in the middle of a session, in handle_connection of src/server/server.cpp.
use xyzwhiteboard.Base.{ℕ, true, some, List, [], ◌∷◌, ◌≡◌, ◌≢◌, refl, ap, ◌∙◌}
use xyzwhiteboard.Base.Fail.{Result, ok, thrown}
use xyzwhiteboard.Action.{PacketMessage, JoinSessionRequest, action_of, get_join_session}
use xyzwhiteboard.Packet.{WhiteboardPacket, of_uint32, join_session}
use xyzwhiteboard.Wire.{Protobuf, DocumentedWire}
use xyzwhiteboard.Wire.RoundTrip.{parse_packet-serialize}
use xyzwhiteboard.Server.Mongo.{Mongo, Documented, WhiteboardDoc}
use xyzwhiteboard.Server.State.{reliable, Server, Host}
use xyzwhiteboard.Server.Sessions.Laws.{connected, connected-add_socket_self}
use xyzwhiteboard.Server.Boards.{handle_join_session_request}
use xyzwhiteboard.Server.Boards.Session.{join_active}
use xyzwhiteboard.Server.Connection.{
  eof, Status, disconnected, caught, dispatch, handle_packet, handle_connection,
}
use xyzwhiteboard.Server.Connection.Frames.{frame}

module _ (M : Mongo) (D : Documented M) (host : Host) (P : Protobuf) (W : DocumentedWire P)
    (p : WhiteboardPacket) (behind : List ℕ) (socket : ℕ) (s : Server M.Db) (oid : M.Oid)
    (doc : WhiteboardDoc) where
  abbrev r : JoinSessionRequest
  r = get_join_session (action_of p.packet)

  dispatched :
      of_uint32 p.packet.packet_type ≡ join_session
      → handle_packet M (reliable host) p.packet socket s
        ≡ handle_join_session_request M (reliable host) p.packet socket s
  unfolding handle_packet dispatch
  dispatched joins = rw joins refl

  -- What the loop makes of the result of the first packet when the client then goes.
  abbrev leaves : Result (Unit {0}) × Server M.Db → Status × Server M.Db
  leaves r = elim r.0 [ ok done ↦ (disconnected, r.1) | thrown e ↦ (caught, r.1) ]

  ends :
      W.Carried p.packet
      → handle_connection M
          (reliable host)
          P
          socket
          (frame M (reliable host) P (p, behind) ∷ eof ∷ [])
          s
        ≡ leaves (handle_packet M (reliable host) p.packet socket s)
  unfolding handle_connection
  ends carried =
      ap (λ (m : PacketMessage). leaves (handle_packet M (reliable host) m socket s))
        (parse_packet-serialize P W p carried behind)

  -- With sockets whose writes succeed: a client whose connection brings one packet, a known user's
  -- request to join a stored whiteboard that has active ids, and then ends: the loop ends as
  -- disconnected, and the client's socket is still connected to the whiteboard.
  pub join_disconnect :
      (ids : List ℕ)
      → W.Carried p.packet
      → of_uint32 p.packet.packet_type ≡ join_session
      → M.read_oid r.whiteboard_id ≡ ok oid
      → D.whiteboard s.db oid ≡ some doc
      → r.user_id ≢ 0
      → doc.active_user_ids ≡ some ids
      → ((handle_connection M
            (reliable host)
            P
            socket
            (frame M (reliable host) P (p, behind) ∷ eof ∷ [])
            s).0
          ≡ disconnected)
        × (connected r.whiteboard_id socket
              (handle_connection M
                (reliable host)
                P
                socket
                (frame M (reliable host) P (p, behind) ∷ eof ∷ [])
                s).1.whiteboard_sessions
            ≡ true)
  join_disconnect ids carried joins valid stored known active =
      let joined = join_active M D host p.packet socket s oid doc valid stored known ids active in
      let all = ends carried ∙ ap leaves (dispatched joins ∙ joined.0) in
      (
        ap (λ (t : Status × Server M.Db). t.0) all,
        ap (λ (t : Status × Server M.Db). connected r.whiteboard_id socket t.1.whiteboard_sessions)
              all
            ∙ connected-add_socket_self r.whiteboard_id socket s.whiteboard_sessions,
      )
