-- ===== src/Server/Connection/Keeps.antt =====
-- Every packet, every connection and every interleaving of the packets of many connections keeps
-- what the parts of the handlers keep.
use xyzwhiteboard.Base.{suc, some, get_elem?, ◌≡◌, refl, ℕ, List, [], ◌∷◌}
use xyzwhiteboard.Action.{PacketMessage}
use xyzwhiteboard.Packet.{
  WhiteboardPacketType, of_uint32, create_whiteboard, create_session, join_session, quit_session,
  add_element, modify_element, login_request, register_request,
}
use xyzwhiteboard.Server.Mongo.{Mongo}
use xyzwhiteboard.Server.State.{Writes, with_writes, Server, Host}
use xyzwhiteboard.Server.Keeps.{Keeps, Keeps-pure}
use xyzwhiteboard.Server.Stable.{Stable}
use xyzwhiteboard.Server.Users.Keeps.{login-Keeps}
use xyzwhiteboard.Server.Boards.Keeps.{
  create_whiteboard-Keeps, create_session-Keeps, join_session-Keeps, quit_session-Keeps,
}
use xyzwhiteboard.Server.Elements.Keeps.{add_element-Keeps, modify_element-Keeps}
use xyzwhiteboard.Server.Connection.{dispatch, handle_packet, serve}

module _ {M : Mongo} {host : Host} {w : Writes} {R : Server M.Db → Server M.Db → Type 0}
    {socket : ℕ} {packet : PacketMessage} (st : Stable M host w R socket packet) where
  dispatch-Keeps :
      (t : WhiteboardPacketType)
      → Keeps R (dispatch M host t packet socket) (dispatch M (with_writes host w) t packet socket)
  unfolding dispatch
  dispatch-Keeps create_whiteboard = create_whiteboard-Keeps st
  dispatch-Keeps create_session = create_session-Keeps st
  dispatch-Keeps join_session = join_session-Keeps st
  dispatch-Keeps quit_session = quit_session-Keeps st
  dispatch-Keeps add_element = add_element-Keeps st
  dispatch-Keeps modify_element = modify_element-Keeps st
  dispatch-Keeps login_request = login-Keeps st
  dispatch-Keeps register_request = st.registers
  dispatch-Keeps _ = Keeps-pure tt

  pub handle_packet-Keeps :
      Keeps R
        (handle_packet M host packet socket)
        (handle_packet M (with_writes host w) packet socket)
  unfolding handle_packet
  handle_packet-Keeps = dispatch-Keeps (of_uint32 packet.packet_type)

module _ {M : Mongo} {host : Host} {w : Writes} {R : Server M.Db → Server M.Db → Type 0} where
  pub serve-Keeps :
      (events : List (ℕ × PacketMessage))
      → ((n socket : ℕ) (packet : PacketMessage)
          → get_elem? events n ≡ some (socket, packet)
          → Stable M host w R socket packet)
      → (s t : Server M.Db) → R s t
      → R (serve M host events s) (serve M (with_writes host w) events t)
  unfolding serve
  serve-Keeps [] st s t h = h
  serve-Keeps ((socket, packet) ∷ events) st s t h =
      serve-Keeps events (λ n. st (suc n)) _ _
        ((handle_packet-Keeps (st 0 socket packet refl)).after s t h).1
