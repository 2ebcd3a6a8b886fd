-- ===== src/Server/Boards/Keeps.antt =====
-- The handlers of whiteboards and sessions keep what their parts keep.
use xyzwhiteboard.Base.{ℕ, String, true, false, Option, none, some, List, ◌==◌}
use xyzwhiteboard.Action.{PacketMessage}
use xyzwhiteboard.Server.Mongo.{Mongo, WhiteboardDoc}
use xyzwhiteboard.Server.State.{Writes, with_writes, Server, Host}
use xyzwhiteboard.Server.Elements.{is_owner}
use xyzwhiteboard.Server.Elements.Keeps.{unicast-Keeps}
use xyzwhiteboard.Server.Boards.{
  is_deserted, user_or_assigned, created_reply, handle_create_whiteboard_request, create_session_on,
  handle_create_session_request, join_shared, join_session_on, handle_join_session_request,
  delete_deserted, handle_quit_session_request,
}
use xyzwhiteboard.Server.Keeps.{Keeps, Keeps-pure, Keeps-if, Keeps-bind, Keeps-when}
use xyzwhiteboard.Server.Stable.{Stable, Reply, responds, lifts}

module _ {M : Mongo} {host : Host} {w : Writes} {R : Server M.Db → Server M.Db → Type 0}
    {socket : ℕ} {packet : PacketMessage} (st : Stable M host w R socket packet) where
  assigned-Keeps :
      (user_id : ℕ)
      → Keeps R
          (user_or_assigned M host user_id socket)
          (user_or_assigned M (with_writes host w) user_id socket)
  unfolding user_or_assigned
  assigned-Keeps user_id = Keeps-if (user_id == 0) st.assigns (Keeps-pure user_id)

  created-Reply :
      (result : Option M.Oid)
      → Reply M host packet.packet_id (created_reply M host packet.packet_id result)
  unfolding created_reply
  created-Reply (some oid) = responds true _
  created-Reply none = responds false _

  pub create_whiteboard-Keeps :
      Keeps R
        (handle_create_whiteboard_request M host packet socket)
        (handle_create_whiteboard_request M (with_writes host w) packet socket)
  unfolding handle_create_whiteboard_request
  create_whiteboard-Keeps = Keeps-bind (assigned-Keeps _) λ user_id.
      Keeps-bind (st.draws host.now)
        λ created_at. Keeps-bind (st.inserts _) λ result. st.sends _ (created-Reply result)

  create_session_on-Keeps :
      (k : String) (oid : M.Oid) (user_id : ℕ) (found : Option WhiteboardDoc)
      → Keeps R
          (create_session_on M host socket packet.packet_id k oid user_id found)
          (create_session_on M (with_writes host w) socket packet.packet_id k oid user_id found)
  unfolding create_session_on
  create_session_on-Keeps k oid user_id none = st.sends _ (responds false _)
  create_session_on-Keeps k oid user_id (some doc) =
      Keeps-if (is_owner doc user_id)
        (Keeps-bind (st.connects k)
          λ _. Keeps-bind (st.updates oid _) λ _. st.sends _ (responds true _))
        (st.sends _ (responds false _))

  pub create_session-Keeps :
      Keeps R
        (handle_create_session_request M host packet socket)
        (handle_create_session_request M (with_writes host w) packet socket)
  unfolding handle_create_session_request
  create_session-Keeps =
      Keeps-bind (lifts _)
        λ oid. Keeps-bind (st.finds oid) λ found. create_session_on-Keeps _ oid _ found

  join_shared-Keeps :
      (k : String) (oid : M.Oid) (user_id : ℕ)
      → Keeps R
          (join_shared M host socket packet.packet_id k oid user_id)
          (join_shared M (with_writes host w) socket packet.packet_id k oid user_id)
  unfolding join_shared
  join_shared-Keeps k oid user_id = Keeps-bind (st.connects k) λ _.
      Keeps-bind (st.updates oid _) λ _. Keeps-bind (st.tests k) λ is_shared.
        Keeps-bind (Keeps-when is_shared (unicast-Keeps st k)) λ _. st.sends _ (responds true _)

  join_session_on-Keeps :
      (k : String) (oid : M.Oid) (user_id : ℕ) (found : Option WhiteboardDoc)
      → Keeps R
          (join_session_on M host socket packet.packet_id k oid user_id found)
          (join_session_on M (with_writes host w) socket packet.packet_id k oid user_id found)
  unfolding join_session_on
  join_session_on-Keeps k oid user_id none = st.sends _ (responds false _)
  join_session_on-Keeps k oid user_id (some doc) = on_session doc.active_user_ids
    where
      on_session :
          (ids : Option (List ℕ))
          → Keeps R
              (join_session_on M host socket packet.packet_id k oid user_id
                (some (record doc { active_user_ids = ids })))
              (join_session_on M
                (with_writes host w)
                socket
                packet.packet_id
                k
                oid
                user_id
                (some (record doc { active_user_ids = ids })))
      on_session none = st.sends _ (responds false _)
      on_session (some ids) = join_shared-Keeps k oid user_id

  pub join_session-Keeps :
      Keeps R
        (handle_join_session_request M host packet socket)
        (handle_join_session_request M (with_writes host w) packet socket)
  unfolding handle_join_session_request
  join_session-Keeps = Keeps-bind (assigned-Keeps _) λ user_id.
      Keeps-bind (lifts _)
        λ oid. Keeps-bind (st.finds oid) λ found. join_session_on-Keeps _ oid user_id found

  delete_deserted-Keeps :
      (oid : M.Oid) (found : Option WhiteboardDoc)
      → Keeps R
          (delete_deserted M host oid found)
          (delete_deserted M (with_writes host w) oid found)
  unfolding delete_deserted
  delete_deserted-Keeps oid none = Keeps-pure tt
  delete_deserted-Keeps oid (some doc) = Keeps-when (is_deserted doc) (st.deletes oid)

  pub quit_session-Keeps :
      Keeps R
        (handle_quit_session_request M host packet socket)
        (handle_quit_session_request M (with_writes host w) packet socket)
  unfolding handle_quit_session_request
  quit_session-Keeps = Keeps-bind (st.disconnects _) λ _. Keeps-bind (lifts _) λ oid.
      Keeps-bind (st.updates oid _) λ _.
        Keeps-bind (st.finds oid)
          λ found. Keeps-bind (delete_deserted-Keeps oid found) λ _. st.sends _ (responds true _)
