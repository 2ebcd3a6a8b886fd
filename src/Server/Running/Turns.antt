-- ===== src/Server/Running/Turns.antt =====
-- The handlers of src/server/server.cpp in turn, each to its end, among the runs of the whole server.
use xyzwhiteboard.Base.{ℕ, some, List, [], ◌∷◌, ◌≡◌, get_elem?}
use xyzwhiteboard.Action.{PacketMessage}
use xyzwhiteboard.Server.Mongo.{Mongo}
use xyzwhiteboard.Server.State.{Server}
use xyzwhiteboard.Server.ThreadPool.{Worker, busy}
use xyzwhiteboard.Server.Acts.{Acts}
use xyzwhiteboard.Server.Running.{Running}

-- A worker is in the connection of each packet.
abbrev pub AllBusy : List (ℕ × PacketMessage) → List (Worker ℕ) → Type 0
AllBusy [] ws = Unit {0}
AllBusy ((socket, packet) ∷ events) ws =
    ((i : ℕ) × (get_elem? ws i ≡ some (busy socket))) × AllBusy events ws

module _ {Db : Type 0} where
  abbrev pub with_server : Running Db → Server Db → Running Db
  with_server r s = record r { server = s }

  abbrev pub with_read : Running Db → List (ℕ × PacketMessage) → Running Db
  with_read r packets = record r { read = packets }
