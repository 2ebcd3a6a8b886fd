-- ===== src/Server/Users.antt =====
-- src/server/server.cpp: getNextSequence, handle_assign_user_id, handle_register_request and
-- handle_login_request; from src/base/utils.cpp generate_random_salt.
pub mod Keeps
pub mod Accounts
pub mod Register
pub mod Login
use xyzwhiteboard.Base.{
  ℕ, zero, suc, ◌+◌, ◌-◌, String, Bool, true, false, Option, none, some, List, [], ◌∷◌, ◌==◌,
  if◌then◌else◌, str_eq, concat, get_or, length,
}
use xyzwhiteboard.Base.Fail.{Result, ok, thrown, Action, ◌>>=◌, ◌>>◌, pure, gets, continue}
use xyzwhiteboard.Sha256.Text.{hash_string}
use xyzwhiteboard.Action.{PacketMessage, action_of, get_register_request, get_login_request}
use xyzwhiteboard.Packet.{WhiteboardPacket, WhiteboardPacketType, construct}
use xyzwhiteboard.Packet.Build.{new_temp_id_response, new_action_response}
use xyzwhiteboard.Server.Mongo.{Mongo, UserDoc}
use xyzwhiteboard.Server.State.{Server, Host, version, action_response, send_packet, draw, query}

abbrev pub charset : List String
charset =
    "0" ∷ "1" ∷ "2" ∷ "3" ∷ "4" ∷ "5" ∷ "6" ∷ "7" ∷ "8" ∷ "9" ∷ "A" ∷ "B" ∷ "C" ∷ "D" ∷ "E" ∷ "F"
    ∷ "G" ∷ "H" ∷ "I" ∷ "J" ∷ "K" ∷ "L" ∷ "M" ∷ "N" ∷ "O" ∷ "P" ∷ "Q" ∷ "R" ∷ "S" ∷ "T" ∷ "U" ∷ "V"
    ∷ "W" ∷ "X" ∷ "Y" ∷ "Z" ∷ "a" ∷ "b" ∷ "c" ∷ "d" ∷ "e" ∷ "f" ∷ "g" ∷ "h" ∷ "i" ∷ "j" ∷ "k" ∷ "l"
    ∷ "m" ∷ "n" ∷ "o" ∷ "p" ∷ "q" ∷ "r" ∷ "s" ∷ "t" ∷ "u" ∷ "v" ∷ "w" ∷ "x" ∷ "y" ∷ "z" ∷ []

-- `dist i` is the i-th number that the distribution gives.
unfoldable pub generate_random_salt : (ℕ → ℕ) → ℕ → String → String
generate_random_salt dist zero salt = salt
generate_random_salt dist (suc rounds) salt =
    generate_random_salt (λ i. dist (i + 1)) rounds (concat salt (get_or charset (dist 0) ""))

-- The value of a document's field `seq`, and 0 where the document or the field is missing.
abbrev pub sequence_value : Option (Option ℕ) → ℕ
sequence_value (some (some n)) = n
sequence_value _ = 0

-- `insert_result ? inserted_count() == 1 : false`
abbrev one_inserted : Option ℕ → Bool
one_inserted none = false
one_inserted (some n) = n == 1

module _ (M : Mongo) (host : Host) where
  unfoldable pub get_next_sequence : Action (Server M.Db) ℕ
  get_next_sequence = do maybe_result ← query M.next_sequence; pure (sequence_value maybe_result)

  unfoldable pub handle_assign_user_id : ℕ → Action (Server M.Db) ℕ
  handle_assign_user_id socket = do
    uid ← get_next_sequence
    insert_result ←
        query
          (M.insert_user (record { id = uid; username = ""; salt = none; password_hash = some "" }))
    packet_id ← draw host.rand
    send_packet host socket (
        new_temp_id_response (one_inserted insert_result) uid
          (construct version WhiteboardPacketType.temp_id_response packet_id))
    pure uid

  -- The `try` block around the insertion, and its `catch`.
  register_reply : ℕ → ℕ → Result (Option ℕ) → WhiteboardPacket
  register_reply packet_id uid (ok (some n)) =
      new_temp_id_response true uid
        (construct version WhiteboardPacketType.temp_id_response packet_id)
  register_reply packet_id uid (ok none) = action_response packet_id false "Failed to register user"
  register_reply packet_id uid (thrown e) =
      action_response packet_id false "Exception occurred while registering user"

  insert_registered : ℕ → ℕ → UserDoc → Action (Server M.Db) (Unit {0})
  unfolding register_reply
  insert_registered socket packet_id doc s =
      let (inserted, s') = query (M.insert_user doc) s in
      send_packet host socket (register_reply packet_id doc.id inserted) s'

  register_on : ℕ → ℕ → String → String → Option UserDoc → Action (Server M.Db) (Unit {0})
  unfolding get_next_sequence insert_registered
  register_on socket packet_id username password_hash (some doc) =
      send_packet host socket (action_response packet_id false "Username already exists")
  register_on socket packet_id username password_hash none = do
    salt ← draw (λ n. generate_random_salt (host.uniform n) 16 "")
    uid ← get_next_sequence
    insert_registered socket packet_id (record {
      id = uid;
      username = username;
      salt = some salt;
      password_hash = some (hash_string (concat salt password_hash));
    })

  unfoldable pub handle_register_request : PacketMessage → ℕ → Action (Server M.Db) (Unit {0})
  unfolding register_on
  handle_register_request packet socket = do
    let request = get_register_request (action_of packet)
    result ← query (M.find_user request.username)
    register_on socket packet.packet_id request.username request.password_hash result

  -- Without both fields there is no reply.
  check_password :
      ℕ → ℕ → ℕ → String → Option String → Option String → Action (Server M.Db) (Unit {0})
  unfolding hash_string
  check_password socket packet_id user_id password_hash (some stored) (some salt) =
      send_packet host socket (
        if str_eq (hash_string (concat salt password_hash)) stored
        then new_temp_id_response true user_id
            (construct version WhiteboardPacketType.temp_id_response packet_id)
        else action_response packet_id false "Invalid username or password")
  check_password socket packet_id user_id password_hash _ _ = pure tt

  login_on : ℕ → ℕ → String → Option UserDoc → Action (Server M.Db) (Unit {0})
  unfolding check_password
  login_on socket packet_id password_hash none =
      send_packet host socket (action_response packet_id false "User not exist")
  login_on socket packet_id password_hash (some doc) =
      check_password socket packet_id doc.id password_hash doc.password_hash doc.salt

  unfoldable pub handle_login_request : PacketMessage → ℕ → Action (Server M.Db) (Unit {0})
  unfolding login_on
  handle_login_request packet socket = do
    let request = get_login_request (action_of packet)
    result ← query (M.find_user request.username)
    login_on socket packet.packet_id request.password_hash result
