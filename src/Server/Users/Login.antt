-- ===== src/Server/Users/Login.antt =====
-- A login after a registration, in src/server/server.cpp.
use xyzwhiteboard.Base.{
  ℕ, String, Bool, true, false, none, some, [], ◌∷◌, ◌++◌, ◌≡◌, ◌≢◌, refl, ap, ◌∙◌, str_eq, eq_iff,
  eq_refl, concat, Bool-cases, inl, inr,
}
use xyzwhiteboard.Base.Fail.{Result, ok}
use xyzwhiteboard.Sha256.Text.{hash_string}
use xyzwhiteboard.Action.{
  PacketMessage, RegisterRequest, LoginRequest, action_of, get_register_request, get_login_request,
}
use xyzwhiteboard.Server.Mongo.{Mongo, Documented, UserDoc, with_username}
use xyzwhiteboard.Server.State.{reliable, Server, Host, action_response}
use xyzwhiteboard.Server.Users.{generate_random_salt, handle_register_request, handle_login_request}
use xyzwhiteboard.Server.Users.Accounts.{next_id, with_username-append}
use xyzwhiteboard.Server.Users.Register.{
  Accounts, registered, register_lem, temp_id_packet, verdict, login_lem,
}

str_eq_ne : (s t : String) → s ≢ t → str_eq s t ≡ false
str_eq_ne s t h = elim (Bool-cases (str_eq s t)) [
  | inl same ↦ absurd (h ((eq_iff s t).0 same))
  | inr differ ↦ differ
]

module _ (M : Mongo) (D : Documented M) (host : Host) (packet login : PacketMessage) (socket : ℕ)
    (s : Server M.Db) (inv : Accounts M D host s)
    (new : with_username (get_register_request (action_of packet)).username (D.users s.db) ≡ none)
    (same_name : (get_login_request (action_of login)).username
      ≡ (get_register_request (action_of packet)).username) where
  abbrev r : RegisterRequest
  r = get_register_request (action_of packet)

  abbrev l : LoginRequest
  l = get_login_request (action_of login)

  abbrev account : UserDoc
  account = registered M D host r s

  abbrev salt : String
  salt = generate_random_salt (host.uniform s.draws) 16 ""

  -- The state after the registration.
  abbrev later : Server M.Db
  later = (handle_register_request M (reliable host) packet socket s).1

  found : with_username l.username (D.users later.db) ≡ some account
  found =
      ap (λ (x : Result (Unit {0}) × Server M.Db). with_username l.username (D.users x.1.db))
        (register_lem M D host packet socket s inv new)
      ∙ rw (D.users-user_added, D.users-counted, same_name)
          (with_username-append r.username (D.users s.db) account new
            ∙ rw (eq_refl r.username) refl)

  reply :
      (client : ℕ) (b : Bool)
      → str_eq
          (hash_string (concat salt l.password_hash))
          (hash_string (concat salt r.password_hash))
        ≡ b
      → handle_login_request M (reliable host) login client later ≡ (
        ok tt,
        record later { sent = later.sent ++ (client, verdict M D host login account.id b) ∷ [] },
      )
  reply client b e = login_lem M D host login client later account salt _ b found refl refl e

  -- With sockets whose writes succeed: after a registration under a new name, with the accounts in
  -- order, a login from any socket with the same name and password hash is answered with the id of
  -- the registration, and changes nothing else.
  pub login-register :
      (client : ℕ)
      → l.password_hash ≡ r.password_hash
      → handle_login_request M (reliable host) login client later ≡ (
        ok tt,
        record later {
          sent =
              later.sent
              ++ (client, temp_id_packet M D host login.packet_id (next_id (D.sequence s.db))) ∷ [];
        },
      )
  login-register client same_password = reply client true (
      ap
        (λ (p : String).
          str_eq (hash_string (concat salt p)) (hash_string (concat salt r.password_hash)))
        same_password
      ∙ eq_refl (hash_string (concat salt r.password_hash)))

  -- With sockets whose writes succeed: after a registration under a new name, with the accounts in
  -- order, a login with that name and a password hash that hashes to another text behind the salt
  -- is refused, and changes nothing else.
  login_wrong_password :
      (client : ℕ)
      → hash_string (concat salt l.password_hash) ≢ hash_string (concat salt r.password_hash)
      → handle_login_request M (reliable host) login client later ≡ (
        ok tt,
        record later {
          sent =
              later.sent
              ++ (
                client,
                (action_response login.packet_id false "Invalid username or password").packet,
              )
                ∷ [];
        },
      )
  login_wrong_password client wrong = reply client false (str_eq_ne _ _ wrong)
