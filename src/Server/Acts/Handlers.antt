-- ===== src/Server/Acts/Handlers.antt =====
-- Each handler of src/server/server.cpp, when it runs alone, is a sequence of its acts.
use xyzwhiteboard.Base.{ℕ, refl}
use xyzwhiteboard.Base.Fail.{Action}
use xyzwhiteboard.Action.{PacketMessage}
use xyzwhiteboard.Server.Mongo.{Mongo}
use xyzwhiteboard.Server.State.{Server, Host, draw, run}
use xyzwhiteboard.Server.Users.Keeps.{assign-Keeps, register-Keeps}
use xyzwhiteboard.Server.Elements.Acts.{broadcast-Acts}
use xyzwhiteboard.Server.Keeps.{Keeps, Both, kept}
use xyzwhiteboard.Server.Stable.{Stable}
use xyzwhiteboard.Server.Connection.{handle_packet}
use xyzwhiteboard.Server.Connection.Keeps.{handle_packet-Keeps}
use xyzwhiteboard.Server.Acts.{
  Act, finds, inserts, updates, deletes, finds_user, inserts_user, counts, draws, replies, connects,
  disconnects, Acts, no_more, next,
}

module _ (M : Mongo) (host : Host) (socket : ℕ) (packet : PacketMessage) (start : Server M.Db) where
  abbrev From : Server M.Db → Type 0
  From s = Acts M host socket packet start s

  -- An action that is one act.
  one_act :
      {A : Type 0} (m : Action (Server M.Db) A)
      → ((s : Server M.Db) → Act M host socket packet s (m s).1)
      → Keeps (Both From) m m
  one_act m act = kept From m (λ s before. next before (act s))

  drawn : {A : Type 0} (f : ℕ → A) → Keeps (Both From) (draw f) (draw f)
  unfolding run
  drawn f = one_act (draw f) (λ s. draws)

  stable : Stable M host host.writes (Both From) socket packet
  unfolding run
  stable = record {
    sends = λ p reply. one_act _ (λ s. replies p reply);
    draws = drawn;
    finds = λ o. one_act _ (λ s. finds o);
    inserts = λ d. one_act _ (λ s. inserts d);
    updates = λ o ops. one_act _ (λ s. updates o ops);
    deletes = λ o. one_act _ (λ s. deletes o);
    finds_user = λ name. one_act _ (λ s. finds_user name);
    connects = λ k. one_act _ (λ s. connects k);
    disconnects = λ k. one_act _ (λ s. disconnects k);
    tests = λ k. kept From _ (λ s before. before);
    assigns =
        assign-Keeps M host host.writes socket packet (λ p reply. one_act _ (λ s. replies p reply))
          drawn drawn (one_act _ (λ s. counts)) (λ u. one_act _ (λ s. inserts_user u))
          (λ name. one_act _ (λ s. finds_user name));
    registers =
        register-Keeps M host host.writes socket packet
          (λ p reply. one_act _ (λ s. replies p reply)) drawn drawn (one_act _ (λ s. counts))
          (λ u. one_act _ (λ s. inserts_user u)) (λ name. one_act _ (λ s. finds_user name));
    broadcasts =
        λ k. kept From _ (λ s before. broadcast-Acts M host socket packet start k s before);
  }

  -- Whatever the packet, the state, the database's answers and the writes that fail: what a handler
  -- does to the state, when no other thread comes between, is a sequence of acts. Acts send replies
  -- to the packet's socket only, and action responses with the packet's id only; they send elements
  -- beside that only to sockets that are in the table then; and they connect and disconnect only the
  -- packet's socket.
  pub handle_packet-Acts :
      Acts M host socket packet start (handle_packet M host packet socket start).1
  handle_packet-Acts = ((handle_packet-Keeps stable).after start start (refl, no_more)).1.1
