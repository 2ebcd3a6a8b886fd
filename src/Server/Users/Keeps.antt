-- ===== src/Server/Users/Keeps.antt =====
-- A login keeps what its parts keep.
use xyzwhiteboard.Base.{ℕ, String, true, false, Option, none, some}
use xyzwhiteboard.Base.Fail.{Result, ok, thrown}
use xyzwhiteboard.Action.{PacketMessage}
use xyzwhiteboard.Server.Mongo.{Mongo, UserDoc}
use xyzwhiteboard.Server.State.{Writes, with_writes, Server, Host, send_packet, draw, query}
use xyzwhiteboard.Packet.{WhiteboardPacket}
use xyzwhiteboard.Server.Users.{
  handle_assign_user_id, get_next_sequence, register_reply, insert_registered, register_on,
  handle_register_request, check_password, login_on, handle_login_request,
}
use xyzwhiteboard.Server.Keeps.{Keeps, Keeps-pure, Keeps-bind}
use xyzwhiteboard.Server.Stable.{Stable, Reply, Reply-if, responds, announces}

module _ {M : Mongo} {host : Host} {w : Writes} {R : Server M.Db → Server M.Db → Type 0}
    {socket : ℕ} {packet : PacketMessage} (st : Stable M host w R socket packet) where
  check_password-Keeps :
      (user_id : ℕ) (password_hash : String) (stored salt : Option String)
      → Keeps R (check_password M host socket packet.packet_id user_id password_hash stored salt) (
          check_password M
            (with_writes host w)
            socket
            packet.packet_id
            user_id
            password_hash
            stored
            salt)
  unfolding check_password
  check_password-Keeps user_id password_hash (some stored) (some salt) =
      st.sends _ (Reply-if _ (announces true user_id _) (responds false _))
  check_password-Keeps user_id password_hash _ _ = Keeps-pure tt

  login_on-Keeps :
      (password_hash : String) (found : Option UserDoc)
      → Keeps R
          (login_on M host socket packet.packet_id password_hash found)
          (login_on M (with_writes host w) socket packet.packet_id password_hash found)
  unfolding login_on
  login_on-Keeps password_hash none = st.sends _ (responds false _)
  login_on-Keeps password_hash (some doc) =
      check_password-Keeps doc.id password_hash doc.password_hash doc.salt

  pub login-Keeps :
      Keeps R
        (handle_login_request M host packet socket)
        (handle_login_request M (with_writes host w) packet socket)
  unfolding handle_login_request
  login-Keeps = Keeps-bind (st.finds_user _) λ found. login_on-Keeps _ found

-- For an invariant that the parts of a registration keep one by one.
module _ (M : Mongo) (host : Host) (w : Writes) {R : Server M.Db → Server M.Db → Type 0}
    (socket : ℕ) (packet : PacketMessage)
    (sends : (p : WhiteboardPacket)
      → Reply M host packet.packet_id p
      → Keeps R (send_packet host socket p) (send_packet (with_writes host w) socket p))
    (draws : (f : ℕ → ℕ) → Keeps R (draw f) (draw f))
    (salts : (f : ℕ → String) → Keeps R (draw f) (draw f))
    (counts : Keeps R (query M.next_sequence) (query M.next_sequence))
    (adds : (u : UserDoc) → Keeps R (query (M.insert_user u)) (query (M.insert_user u)))
    (finds_user : (name : String)
      → Keeps R (query (M.find_user name)) (query (M.find_user name))) where
  get_next_sequence-Keeps :
      Keeps R (get_next_sequence M host) (get_next_sequence M (with_writes host w))
  unfolding get_next_sequence
  get_next_sequence-Keeps = Keeps-bind counts λ r. Keeps-pure _

  pub assign-Keeps :
      Keeps R
        (handle_assign_user_id M host socket)
        (handle_assign_user_id M (with_writes host w) socket)
  unfolding handle_assign_user_id
  assign-Keeps = Keeps-bind get_next_sequence-Keeps λ uid. Keeps-bind (adds _) λ inserted.
      Keeps-bind (draws host.rand)
        λ packet_id. Keeps-bind (sends _ (announces _ uid packet_id)) λ _. Keeps-pure uid

  register_reply-Reply :
      (uid : ℕ) (r : Result (Option ℕ))
      → Reply M host packet.packet_id (register_reply M host packet.packet_id uid r)
  unfolding register_reply
  register_reply-Reply uid (ok (some n)) = announces true uid _
  register_reply-Reply uid (ok none) = responds false _
  register_reply-Reply uid (thrown e) = responds false _

  insert_registered-Keeps :
      (doc : UserDoc)
      → Keeps R
          (insert_registered M host socket packet.packet_id doc)
          (insert_registered M (with_writes host w) socket packet.packet_id doc)
  unfolding insert_registered
  insert_registered-Keeps doc = record {
    after = λ s t h.
        let (same, h') = (adds doc).after s t h in
        rw same
          ((sends _ (register_reply-Reply doc.id (query (M.insert_user doc) t).0)).after _ _ h');
  }

  register_on-Keeps :
      (username password_hash : String) (found : Option UserDoc)
      → Keeps R
          (register_on M host socket packet.packet_id username password_hash found)
          (register_on M (with_writes host w) socket packet.packet_id username password_hash found)
  unfolding register_on
  register_on-Keeps username password_hash (some doc) = sends _ (responds false _)
  register_on-Keeps username password_hash none =
      Keeps-bind (salts _)
        λ salt. Keeps-bind get_next_sequence-Keeps λ uid. insert_registered-Keeps _

  pub register-Keeps :
      Keeps R
        (handle_register_request M host packet socket)
        (handle_register_request M (with_writes host w) packet socket)
  unfolding handle_register_request
  register-Keeps = Keeps-bind (finds_user _) λ found. register_on-Keeps _ _ found
