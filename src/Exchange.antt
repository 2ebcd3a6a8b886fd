-- ===== src/Exchange.antt =====
-- A client of src/client/client.cpp and the server of src/server/server.cpp together: the client calls
-- one of its requests, the server handles what it wrote, and the client receives what the server
-- wrote to its socket, in order and each packet by a read of its own, before anything else happens.
pub mod Steps
pub mod Create
pub mod Account
pub mod Join
pub mod Draw
pub mod Many
use xyzwhiteboard.Base.{
  ℕ, Bool, true, false, List, [], ◌∷◌, ◌++◌, ◌≡◌, refl, ap, ◌==◌, if◌then◌else◌, length, drop,
}
use xyzwhiteboard.Base.Fail.{Action}
use xyzwhiteboard.Element as Element
use xyzwhiteboard.Action.{PacketMessage}
use xyzwhiteboard.Packet.{Indeterminate}
use xyzwhiteboard.Server.Mongo.{Mongo}
use xyzwhiteboard.Server.State.{Server, Host, for_socket}
use xyzwhiteboard.Server.Connection as Connection
use xyzwhiteboard.Client.{Client}
use xyzwhiteboard.Client.Receive as Receive

module _ (M : Mongo) (host : Host) (e : Element.Indeterminate) (i : Indeterminate) where
  -- The server handles one packet after another; an exception ends the packet's handler only.
  unfoldable pub handle_all : ℕ → List PacketMessage → Server M.Db → Server M.Db
  handle_all socket [] s = s
  handle_all socket (m ∷ ms) s = handle_all socket ms (Connection.handle_packet M host m socket s).1

  unfoldable pub receive_all : List PacketMessage → Client → Client
  receive_all [] c = c
  receive_all (m ∷ ms) c = receive_all ms (Receive.handle_packet e i m c).1

  unfoldable pub exchange :
      Action Client (Unit {0}) → ℕ → Client → Server M.Db → Client × Server M.Db
  unfolding handle_all receive_all
  exchange send socket c s =
      let c' = (send c).1 in
      let s' = handle_all socket (drop (length c.sent) c'.sent) s in
      (receive_all (for_socket socket (drop (length s.sent) s'.sent)) c', s')
