-- ===== src/Exchange/Account.antt =====
-- A client registers a user, and a client, this or another, logs in as that user: what the clients
-- and the server hold after it.
use xyzwhiteboard.Base.{ℕ, String, none, [], ◌∷◌, ◌++◌, ◌≡◌, refl, ap, ◌∙◌, ==_refl}
use xyzwhiteboard.Base.Fail.{Result, ok}
use xyzwhiteboard.Element as Element
use xyzwhiteboard.Action.{PacketMessage}
use xyzwhiteboard.Packet.{WhiteboardPacketType, Indeterminate, construct}
use xyzwhiteboard.Server.Mongo.{Mongo, Documented, with_username}
use xyzwhiteboard.Server.State.{reliable, Server, Host, version}
use xyzwhiteboard.Server.Users.Accounts as Accounts
use xyzwhiteboard.Server.Users.Register as Register
use xyzwhiteboard.Server.Users.Register.{temp_id_packet, register_lem}
use xyzwhiteboard.Server.Users.Login.{login-register}
use xyzwhiteboard.Server.Connection as Connection
use xyzwhiteboard.Server.Users.{handle_register_request}
use xyzwhiteboard.Client.{Client}
use xyzwhiteboard.Client.Receive.Answers.{Request, registers, logs_in, message, send, sends}
use xyzwhiteboard.Exchange.{receive_all, exchange}
use xyzwhiteboard.Exchange.Steps.{exchange-one, receive-temp_id, queued}

module _ (M : Mongo) (D : Documented M) (host : Host) (write : PacketMessage → Result (Unit {0}))
    (writes : (m : PacketMessage) → write m ≡ ok tt) (e : Element.Indeterminate)
    (i : Indeterminate) where
  -- An exchange that the server answers with an id alone.
  ends :
      (request : Request) (socket packet_id uid : ℕ) (c : Client) (s : Server M.Db)
      → (Connection.handle_packet M
          (reliable host)
          (message write writes request c)
          socket
          s).1.sent
        ≡ s.sent ++ (socket, temp_id_packet M D host packet_id uid) ∷ []
      → exchange M (reliable host) e i (send write writes request) socket c s ≡ (
        record (send write writes request c).1 {
          user_id = uid;
          received_queue =
              (send write writes request c).1.received_queue
              ++ queued M (reliable host) e i (temp_id_packet M D host packet_id uid) ∷ [];
        },
        (Connection.handle_packet M (reliable host) (message write writes request c) socket s).1,
      )
  unfolding receive_all
  ends request socket packet_id uid c s written =
      let server' : Server M.Db =
        (Connection.handle_packet M (reliable host) (message write writes request c) socket s).1 in
      exchange-one M (reliable host) e i (send write writes request) socket c s
        (message write writes request c) ((socket, temp_id_packet M D host packet_id uid) ∷ [])
        (ap (λ (r : Result (Unit {0}) × Client). r.1.sent) (sends write writes request c)) written
      ∙ rw (==_refl socket) (
          ap (λ (r : Result (Unit {0}) × Client). (r.1, server'))
            (receive-temp_id M (reliable host) e i
              (construct version WhiteboardPacketType.temp_id_response packet_id) uid
              (send write writes request c).1))

  identifies :
      (request : Request) (socket packet_id uid : ℕ) (c : Client) (s : Server M.Db)
      → (Connection.handle_packet M
          (reliable host)
          (message write writes request c)
          socket
          s).1.sent
        ≡ s.sent ++ (socket, temp_id_packet M D host packet_id uid) ∷ []
      → ((exchange M (reliable host) e i (send write writes request) socket c s).0.user_id ≡ uid)
        × ((exchange M (reliable host) e i (send write writes request) socket c s).1
            ≡ (Connection.handle_packet M
                (reliable host)
                (message write writes request c)
                socket
                s).1)
  identifies request socket packet_id uid c s written =
      let ends = ends request socket packet_id uid c s written in
      (
        ap (λ (r : Client × Server M.Db). r.0.user_id) ends,
        ap (λ (r : Client × Server M.Db). r.1) ends,
      )

  module _ (username password : String) (socket : ℕ) (c : Client) (s : Server M.Db) where
    -- After the registration.
    abbrev pub registered : Client × Server M.Db
    registered =
        exchange M (reliable host) e i (send write writes (registers username password)) socket c s

    -- After the registration and the login of a client.
    abbrev pub logged_in : ℕ → Client → Client × Server M.Db
    logged_in socket' d =
        exchange M (reliable host) e i (send write writes (logs_in username password)) socket' d
          registered.1

    abbrev uid : ℕ
    uid = Accounts.next_id (D.sequence s.db)

    abbrev registration : PacketMessage
    registration = message write writes (registers username password) c

    registers_lem :
        Register.Accounts M D host s
        → with_username username (D.users s.db) ≡ none
        → (registered.0.user_id ≡ uid)
          × (registered.1 ≡ (handle_register_request M (reliable host) registration socket s).1)
    unfolding Connection.handle_packet
    registers_lem inv new = identifies (registers username password) socket _ uid c s (
        ap (λ (r : Result (Unit {0}) × Server M.Db). r.1.sent)
          (register_lem M D host registration socket s inv new))

    logs_in_lem :
        (socket' : ℕ) (d : Client)
        → Register.Accounts M D host s
        → with_username username (D.users s.db) ≡ none
        → ((logged_in socket' d).0.user_id ≡ uid) × ((logged_in socket' d).1.db ≡ registered.1.db)
    unfolding Connection.handle_packet
    logs_in_lem socket' d inv new =
        let login = message write writes (logs_in username password) d in
        let answered =
          login-register M D host registration login socket s inv new refl socket' refl in
        rw ((registers_lem inv new).1) (
          let done =
            identifies (logs_in username password) socket' _ uid d
              (handle_register_request M (reliable host) registration socket s).1
              (ap (λ (r : Result (Unit {0}) × Server M.Db). r.1.sent) answered) in
          (
            done.0,
            ap (λ (t : Server M.Db). t.db) done.1
                ∙ ap (λ (r : Result (Unit {0}) × Server M.Db). r.1.db) answered,
          ))

    -- Where writes succeed and clients read each packet by itself, with the server's accounts in order, and where no user has the name: a
    -- client registers a name and a password by one call, and any client, at any socket, then logs in
    -- with them. Then both have the same user id, the new one, and the login changed nothing in the
    -- database.
    pub account_exchange :
        (socket' : ℕ) (d : Client)
        → Register.Accounts M D host s
        → with_username username (D.users s.db) ≡ none
        → (registered.0.user_id ≡ Accounts.next_id (D.sequence s.db))
          × ((logged_in socket' d).0.user_id ≡ Accounts.next_id (D.sequence s.db))
          × ((logged_in socket' d).1.db ≡ registered.1.db)
    account_exchange socket' d inv new =
        let login = logs_in_lem socket' d inv new in ((registers_lem inv new).0, login.0, login.1)
