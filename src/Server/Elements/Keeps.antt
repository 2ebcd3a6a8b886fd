-- ===== src/Server/Elements/Keeps.antt =====
-- The handlers of elements keep what their parts keep.
use xyzwhiteboard.Base.{ℕ, String, Bool, true, false, Option, none, some, List, [], ◌∷◌}
use xyzwhiteboard.Base.Fail.{pure, gets}
use xyzwhiteboard.Action.{PacketMessage}
use xyzwhiteboard.Server.Mongo.{Mongo, WhiteboardDoc}
use xyzwhiteboard.Packet.{WhiteboardPacket}
use xyzwhiteboard.Server.Sessions.{store, at}
use xyzwhiteboard.Server.State.{
  Writes, with_writes, Server, Host, send_packet, draw, query, shared, modify_sessions,
}
use xyzwhiteboard.Server.Elements.{
  is_active, stores_element, may_add, elements_packet, stored_elements, send_all, broadcast_on,
  fetch, handle_broadcast, unicast_on, handle_unicast, add_element_on, handle_add_element_request,
  replace_element, modify_element_on, handle_modify_element_request,
}
use xyzwhiteboard.Server.Keeps.{Keeps, Keeps-pure, Keeps-if, Keeps-bind, Keeps-when}
use xyzwhiteboard.Server.Stable.{Stable, responds, shows, lifts}

module _ {M : Mongo} {host : Host} {w : Writes} {R : Server M.Db → Server M.Db → Type 0}
    {socket : ℕ} {packet : PacketMessage} (st : Stable M host w R socket packet) where
  fetch-Keeps : (k : String) → Keeps R (fetch M host k) (fetch M (with_writes host w) k)
  unfolding fetch
  fetch-Keeps k = Keeps-bind (lifts _) λ oid. st.finds oid

  unicast_on-Keeps :
      (found : Option WhiteboardDoc)
      → Keeps R (unicast_on M host socket found) (unicast_on M (with_writes host w) socket found)
  unfolding unicast_on elements_packet stored_elements
  unicast_on-Keeps none = Keeps-pure tt
  unicast_on-Keeps (some doc) = Keeps-bind (st.draws host.rand) λ id. st.sends _ (shows doc id)

  pub unicast-Keeps :
      (k : String)
      → Keeps R (handle_unicast M host k socket) (handle_unicast M (with_writes host w) k socket)
  unfolding handle_unicast
  unicast-Keeps k =
      Keeps-bind (st.tests k) λ is_shared.
        Keeps-when is_shared (Keeps-bind (fetch-Keeps k) λ found. unicast_on-Keeps found)

  add_element_on-Keeps :
      (k : String) (oid : M.Oid) (user_id : ℕ) (text : String) (found : Option WhiteboardDoc)
      → Keeps R
          (add_element_on M host socket packet.packet_id k oid user_id text found)
          (add_element_on M (with_writes host w) socket packet.packet_id k oid user_id text found)
  unfolding add_element_on
  add_element_on-Keeps k oid user_id text none = st.sends _ (responds false _)
  add_element_on-Keeps k oid user_id text (some doc) =
      Keeps-bind
        (Keeps-when (may_add doc user_id)
          (Keeps-bind (st.updates oid _) λ _. st.sends _ (responds true _)))
        λ _. Keeps-bind (st.tests k) λ is_shared. Keeps-when is_shared (st.broadcasts k)

  pub add_element-Keeps :
      Keeps R
        (handle_add_element_request M host packet socket)
        (handle_add_element_request M (with_writes host w) packet socket)
  unfolding handle_add_element_request
  add_element-Keeps =
      Keeps-bind (lifts _)
        λ oid. Keeps-bind (st.finds oid) λ found. add_element_on-Keeps _ oid _ _ found

  replace_element-Keeps :
      (k : String) (oid : M.Oid) (orig modi : String) (b : Bool)
      → Keeps R
          (replace_element M host socket packet.packet_id k oid orig modi b)
          (replace_element M (with_writes host w) socket packet.packet_id k oid orig modi b)
  unfolding replace_element
  replace_element-Keeps k oid orig modi false = st.sends _ (responds false _)
  replace_element-Keeps k oid orig modi true = Keeps-bind (st.updates oid _) λ _.
      Keeps-bind (st.sends _ (responds true _))
        λ _. Keeps-bind (st.tests k) λ is_shared. Keeps-when is_shared (st.broadcasts k)

  modify_element_on-Keeps :
      (k : String) (oid : M.Oid) (user_id : ℕ) (orig modi : String) (found : Option WhiteboardDoc)
      → Keeps R (modify_element_on M host socket packet.packet_id k oid user_id orig modi found) (
          modify_element_on M
            (with_writes host w)
            socket
            packet.packet_id
            k
            oid
            user_id
            orig
            modi
            found)
  unfolding modify_element_on
  modify_element_on-Keeps k oid user_id orig modi none = st.sends _ (responds false _)
  modify_element_on-Keeps k oid user_id orig modi (some doc) =
      Keeps-if (is_active doc user_id) (on_elements doc.elements) (Keeps-pure tt)
    where
      on_elements :
          (elements : Option (List String))
          → Keeps R
              (elim elements [
                | none ↦ pure tt
                | some stored ↦
                    replace_element M host socket packet.packet_id k oid orig modi
                      (stores_element orig stored)
              ])
              (elim elements [
                | none ↦ pure tt
                | some stored ↦
                    replace_element M
                      (with_writes host w)
                      socket
                      packet.packet_id
                      k
                      oid
                      orig
                      modi
                      (stores_element orig stored)
              ])
      on_elements none = Keeps-pure tt
      on_elements (some stored) = replace_element-Keeps k oid orig modi (stores_element orig stored)

  pub modify_element-Keeps :
      Keeps R
        (handle_modify_element_request M host packet socket)
        (handle_modify_element_request M (with_writes host w) packet socket)
  unfolding handle_modify_element_request
  modify_element-Keeps =
      Keeps-bind (lifts _)
        λ oid. Keeps-bind (st.finds oid) λ found. modify_element_on-Keeps _ oid _ _ _ found

-- A broadcast keeps what its parts keep, the write to the table of sessions among them.
module _ (M : Mongo) (host : Host) (w : Writes) {R : Server M.Db → Server M.Db → Type 0}
    (sends : (socket : ℕ) (p : WhiteboardPacket)
      → Keeps R (send_packet host socket p) (send_packet (with_writes host w) socket p))
    (draws : (f : ℕ → ℕ) → Keeps R (draw f) (draw f))
    (finds : (o : M.Oid) → Keeps R (query (M.find_whiteboard o)) (query (M.find_whiteboard o)))
    (stores : (k : String) (sockets : List ℕ)
      → Keeps R (modify_sessions (store k sockets)) (modify_sessions (store k sockets)))
    (tests : (k : String) → Keeps R (shared k) (shared k))
    (reads : (k : String)
      → Keeps R
          (gets (λ s. at k s.whiteboard_sessions))
          (gets (λ s. at k s.whiteboard_sessions))) where
  send_all-Keeps :
      (sockets : List ℕ) (p : WhiteboardPacket)
      → Keeps R (send_all M host sockets p) (send_all M (with_writes host w) sockets p)
  unfolding send_all
  send_all-Keeps [] p = Keeps-pure tt
  send_all-Keeps (socket ∷ sockets) p = Keeps-bind (sends socket p) λ _. send_all-Keeps sockets p

  broadcast_on-Keeps :
      (k : String) (found : Option WhiteboardDoc)
      → Keeps R (broadcast_on M host k found) (broadcast_on M (with_writes host w) k found)
  unfolding broadcast_on elements_packet stored_elements
  broadcast_on-Keeps k none = Keeps-pure tt
  broadcast_on-Keeps k (some doc) = Keeps-bind (draws host.rand) λ packet_id.
      Keeps-bind (reads k) λ sockets.
        Keeps-bind (stores k sockets)
          λ _. send_all-Keeps sockets (elements_packet M host doc packet_id)

  pub broadcast-Keeps :
      (k : String) → Keeps R (handle_broadcast M host k) (handle_broadcast M (with_writes host w) k)
  unfolding handle_broadcast fetch
  broadcast-Keeps k = Keeps-bind (tests k) λ is_shared.
      Keeps-when is_shared
        (Keeps-bind (Keeps-bind (lifts _) λ oid. finds oid) λ found. broadcast_on-Keeps k found)
