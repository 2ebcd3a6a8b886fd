-- ===== src/Server/Users/Register.antt =====
-- Registration, login and the assignment of ids in src/server/server.cpp, against the documented
-- behaviour of the database.
use xyzwhiteboard.Base.{
  ℕ, ◌+◌, String, Bool, true, false, Option, none, some, [], ◌∷◌, ◌++◌, ◌≡◌, ◌≢◌, refl, str_eq,
  concat,
}
use xyzwhiteboard.Base.Fail.{ok}
use xyzwhiteboard.Sha256.Text.{hash_string}
use xyzwhiteboard.Action.{
  PacketMessage, RegisterRequest, action_of, get_register_request, get_login_request,
}
use xyzwhiteboard.Packet.{WhiteboardPacketType, construct}
use xyzwhiteboard.Packet.Build.{new_temp_id_response}
use xyzwhiteboard.Server.Mongo.{Mongo, Documented, UserDoc, with_username, on_some}
use xyzwhiteboard.Server.State.{reliable, Server, Host, version, action_response, run}
use xyzwhiteboard.Server.Users.{
  sequence_value, generate_random_salt, get_next_sequence, handle_assign_user_id,
  handle_register_request, handle_login_request,
}
use xyzwhiteboard.Server.Users.Accounts.{next_id, UsersInv, UsersInv-append, IdsBelow-with_id}

next_sequence_value : (o : Option ℕ) → sequence_value (on_some some o) ≡ next_id o
next_sequence_value none = refl
next_sequence_value (some n) = refl

module _ (M : Mongo) (D : Documented M) (host : Host) where
  abbrev pub Accounts : Server M.Db → Type 0
  Accounts s = UsersInv (D.sequence s.db) (D.users s.db)

  get_next_sequence_lem :
      (s : Server M.Db)
      → get_next_sequence M (reliable host) s
        ≡ (ok (next_id (D.sequence s.db)), record s { db = D.counted s.db })
  unfolding get_next_sequence run
  get_next_sequence_lem s = rw (D.next_sequence_lem, next_sequence_value (D.sequence s.db)) refl

  -- The database after a user with the next id was inserted.
  abbrev pub joined : M.Db → UserDoc → M.Db
  joined db u = D.user_added (D.counted db) u

  inserts :
      (s : Server M.Db) (u : UserDoc)
      → Accounts s
      → u.id ≡ next_id (D.sequence s.db)
      → M.insert_user u (D.counted s.db) ≡ (ok (some 1), joined s.db u)
  inserts s u inv e =
      D.insert_user_lem u (D.counted s.db)
        (rw (D.users-counted, e) (IdsBelow-with_id _ (D.users s.db) inv.below))

  pub joined-Accounts :
      (s : Server M.Db) (u : UserDoc)
      → Accounts s
      → u.id ≡ next_id (D.sequence s.db)
      → (u.username ≢ "" → with_username u.username (D.users s.db) ≡ none)
      → UsersInv (D.sequence (joined s.db u)) (D.users (joined s.db u))
  joined-Accounts s u inv e h =
      rw (D.sequence-user_added, D.sequence-counted, D.users-user_added, D.users-counted)
        (UsersInv-append (D.sequence s.db) (D.users s.db) u inv e h)

  -- An anonymous user's account.
  abbrev pub anonymous : ℕ → UserDoc
  anonymous id = record { id = id; username = ""; salt = none; password_hash = some "" }

  -- With sockets whose writes succeed: with the accounts in order, the assignment of an id
  -- succeeds: it stores a user without a name under the next id, announces the id to the socket and
  -- returns it.
  pub assign_lem :
      (socket : ℕ) (s : Server M.Db)
      → Accounts s
      → handle_assign_user_id M (reliable host) socket s ≡ (
        ok (next_id (D.sequence s.db)),
        record s {
          db = joined s.db (anonymous (next_id (D.sequence s.db)));
          sent =
              s.sent
              ++ (
                socket,
                (new_temp_id_response true (next_id (D.sequence s.db)) (
                    construct version WhiteboardPacketType.temp_id_response
                      (host.rand s.draws))).packet,
              )
                ∷ [];
          draws = s.draws + 1;
        },
      )
  unfolding handle_assign_user_id run
  assign_lem socket s inv = rw get_next_sequence_lem (rw (inserts s (anonymous _) inv refl) refl)

  abbrev pub temp_id_packet : ℕ → ℕ → PacketMessage
  temp_id_packet packet_id uid =
      (new_temp_id_response true uid
        (construct version WhiteboardPacketType.temp_id_response packet_id)).packet

  -- The account that a registration in a state makes: the next id, a fresh salt, and the hash of the
  -- salt before the password's hash.
  abbrev pub registered : RegisterRequest → Server M.Db → UserDoc
  registered r s =
      let salt = generate_random_salt (host.uniform s.draws) 16 "" in
      record {
        id = next_id (D.sequence s.db);
        username = r.username;
        salt = some salt;
        password_hash = some (hash_string (concat salt r.password_hash));
      }

  -- With sockets whose writes succeed: with the accounts in order and a name that no user has, a
  -- registration stores the account and answers with its id.
  pub register_lem :
      (packet : PacketMessage) (socket : ℕ) (s : Server M.Db)
      → Accounts s
      → with_username (get_register_request (action_of packet)).username (D.users s.db) ≡ none
      → handle_register_request M (reliable host) packet socket s ≡ (
        ok tt,
        record s {
          db = joined s.db (registered (get_register_request (action_of packet)) s);
          sent =
              s.sent ++ (socket, temp_id_packet packet.packet_id (next_id (D.sequence s.db))) ∷ [];
          draws = s.draws + 1;
        },
      )
  unfolding handle_register_request run
  register_lem packet socket s inv new =
      rw (D.find_user_lem, new, D.next_sequence_lem, next_sequence_value (D.sequence s.db))
        (rw (inserts s (registered (get_register_request (action_of packet)) s) inv refl) refl)

  -- With sockets whose writes succeed: a name that a user has is refused, and nothing else changes.
  pub register_taken :
      (packet : PacketMessage) (socket : ℕ) (s : Server M.Db) (u : UserDoc)
      → with_username (get_register_request (action_of packet)).username (D.users s.db) ≡ some u
      → handle_register_request M (reliable host) packet socket s ≡ (
        ok tt,
        record s {
          sent =
              s.sent
              ++ (socket, (action_response packet.packet_id false "Username already exists").packet)
                ∷ [];
        },
      )
  unfolding handle_register_request run
  register_taken packet socket s u taken = rw (D.find_user_lem, taken) refl

  -- What a login answers, by the outcome of the comparison of the hashes.
  abbrev pub verdict : PacketMessage → ℕ → Bool → PacketMessage
  verdict packet uid true = temp_id_packet packet.packet_id uid
  verdict packet uid false =
      (action_response packet.packet_id false "Invalid username or password").packet

  -- The login of a user with a salt and a stored hash.
  pub login_lem :
      (packet : PacketMessage) (socket : ℕ) (s : Server M.Db) (u : UserDoc) (salt stored : String)
      (b : Bool)
      → with_username (get_login_request (action_of packet)).username (D.users s.db) ≡ some u
      → u.password_hash ≡ some stored
      → u.salt ≡ some salt
      → str_eq
          (hash_string (concat salt (get_login_request (action_of packet)).password_hash))
          stored
        ≡ b
      → handle_login_request M (reliable host) packet socket s
        ≡ (ok tt, record s { sent = s.sent ++ (socket, verdict packet u.id b) ∷ [] })
  unfolding handle_login_request run
  login_lem packet socket s u salt stored true found hashed salted same =
      rw (D.find_user_lem, found, hashed, salted) (rw same refl)
  login_lem packet socket s u salt stored false found hashed salted same =
      rw (D.find_user_lem, found, hashed, salted) (rw same refl)
