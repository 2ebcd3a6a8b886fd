-- ===== src/Exchange/Many.antt =====
-- Many clients of src/client/client.cpp and the server of src/server/server.cpp: requests, handlers and
-- responses interleave in any order.
pub mod Answers
use xyzwhiteboard.Base.{
  ℕ, suc, ◌+◌, ◌<◌, ◌^◌, some, List, [], ◌∷◌, ◌++◌, ◌≡◌, ◌==◌, if◌then◌else◌, get_elem?,
}
use xyzwhiteboard.Base.Fail.{Result, ok}
use xyzwhiteboard.Element as Element
use xyzwhiteboard.Action.{PacketMessage}
use xyzwhiteboard.Packet.{Indeterminate}
use xyzwhiteboard.Server.Mongo.{Mongo}
use xyzwhiteboard.Server.State.{Server, Host, for_socket}
use xyzwhiteboard.Server.Connection as Connection
use xyzwhiteboard.Server.State.{fresh_server}
use xyzwhiteboard.Client.{Client}
use xyzwhiteboard.Client.Receive as Receive
use xyzwhiteboard.Client.Receive.Answers.{Request, send}

-- Each client has the socket of its number. Beside the clients and the server: how many of its
-- client's packets the server has read from each socket, how many of the server's packets each
-- client has read, and the packets that the server has handled, in order.
pub record Many (Db : Type 0) : Type 0 where
  pub clients : ℕ → Client
  pub server : Server Db
  pub arrived : ℕ → ℕ
  pub received : ℕ → ℕ
  pub handled : List (ℕ × PacketMessage)

abbrev pub update : {A : Type 0} → ℕ → A → (ℕ → A) → ℕ → A
update k a f j = if k == j then a else f j

abbrev pub next : ℕ → (ℕ → ℕ) → ℕ → ℕ
next k f = update k (suc (f k)) f

abbrev pub begin : {Db : Type 0} → (ℕ → Client) → Db → Many Db
begin clients db = record {
  clients = clients;
  server = fresh_server db;
  arrived = λ k. 0;
  received = λ k. 0;
  handled = [];
}

module _ (M : Mongo) (host : Host) (e : Element.Indeterminate) (i : Indeterminate)
    (write : PacketMessage → Result (Unit {0}))
    (writes : (m : PacketMessage) → write m ≡ ok tt) where
  pub data Step : Many M.Db → Many M.Db → Type 0 where
    -- A client whose counter is not about to wrap around sends a request.
    sends :
        (r : Many M.Db) (k : ℕ) (request : Request)
        → (r.clients k).packet_counter + 1 < 2 ^ 32
        → Step r
            (record r { clients = update k (send write writes request (r.clients k)).1 r.clients })
    -- The server handles the next packet of a client, whether its handler returns or throws, or
    -- loses it, as it does with packets that arrive in one read or after the connection has ended.
    handles :
        (r : Many M.Db) (k : ℕ) (m : PacketMessage)
        → get_elem? (r.clients k).sent (r.arrived k) ≡ some m
        → Step r (record r {
          server = (Connection.handle_packet M host m k r.server).1;
          arrived = next k r.arrived;
          handled = r.handled ++ (k, m) ∷ [];
        })
    loses : (r : Many M.Db) (k : ℕ) → Step r (record r { arrived = next k r.arrived })
    -- A client receives the next packet that the server wrote to its socket, and goes on also where
    -- its handler throws.
    receives :
        (r : Many M.Db) (k : ℕ) (m : PacketMessage)
        → get_elem? (for_socket k r.server.sent) (r.received k) ≡ some m
        → Step r (record r {
          clients = update k (Receive.handle_packet e i m (r.clients k)).1 r.clients;
          received = next k r.received;
        })

  pub data Reach (r : Many M.Db) : Many M.Db → Type 0 where
    here : Reach r r
    later : {p q : Many M.Db} → Reach r p → Step p q → Reach r q
