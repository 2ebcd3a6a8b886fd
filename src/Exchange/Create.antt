-- ===== src/Exchange/Create.antt =====
-- A client creates a whiteboard: what client and server hold after it.
use xyzwhiteboard.Base.{
  ℕ, ◌+◌, false, true, none, some, [], ◌∷◌, ◌++◌, ◌≡◌, ◌≢◌, refl, sym, ap, ◌∙◌, ==_refl,
}
use mathlib.Core.List.{append_assoc}
use xyzwhiteboard.Base.Fail.{Result, ok}
use xyzwhiteboard.Element as Element
use xyzwhiteboard.Action.{PacketMessage}
use xyzwhiteboard.Packet.Build.{new_temp_id_response}
use xyzwhiteboard.Packet.{WhiteboardPacket, WhiteboardPacketType, Indeterminate, construct}
use xyzwhiteboard.Server.Mongo.{Mongo, Documented, with_id}
use xyzwhiteboard.Server.Mongo.Laws.{same_oid_refl}
use xyzwhiteboard.Server.State.{reliable, Server, Host, version}
use xyzwhiteboard.Server.Users.Accounts
use xyzwhiteboard.Server.Users.Accounts.{IdsBelow-with_id}
use xyzwhiteboard.Server.Users.Register.{Accounts, joined, anonymous}
use xyzwhiteboard.Server.Boards.Create.{blank, created_packet, create_known, create_anonymous}
use xyzwhiteboard.Server.Connection as Connection
use xyzwhiteboard.Server.Boards.{handle_create_whiteboard_request}
use xyzwhiteboard.Client.{Client}
use xyzwhiteboard.Client.Receive.Answers.{creates_whiteboard, message, next_id, send, sends, noted}
use xyzwhiteboard.Exchange.{receive_all, exchange}
use xyzwhiteboard.Exchange.Steps.{exchange-one, receive-create, receive-temp_id, queued}

module _ (M : Mongo) (D : Documented M) (host : Host) (write : PacketMessage → Result (Unit {0}))
    (writes : (m : PacketMessage) → write m ≡ ok tt) (e : Element.Indeterminate) (i : Indeterminate)
    (socket : ℕ) (c : Client) (s : Server M.Db) where
  abbrev request : PacketMessage
  request = message write writes creates_whiteboard c

  abbrev after_send : Client
  after_send = (send write writes creates_whiteboard c).1

  dispatched :
      Connection.handle_packet M (reliable host) request socket s
      ≡ handle_create_whiteboard_request M (reliable host) request socket s
  unfolding Connection.handle_packet
  dispatched = refl

  -- The client and the server after the exchange.
  abbrev after : Client × Server M.Db
  after = exchange M (reliable host) e i (send write writes creates_whiteboard) socket c s

  sent_request : after_send.sent ≡ c.sent ++ request ∷ []
  sent_request =
      ap (λ (r : Result (Unit {0}) × Client). r.1.sent) (sends write writes creates_whiteboard c)

  -- The client's user and the whiteboard it holds, which the server did not store before and stores
  -- now for this user, without elements, made at the given draw.
  abbrev pub Holds : ℕ → ℕ → Type 0
  Holds user_id draw =
      (after.0.user_id ≡ user_id)
      × ((oid : M.Oid) × (M.read_oid after.0.whiteboard_id ≡ ok oid)
          × (D.whiteboard s.db oid ≡ none)
          × (D.whiteboard after.1.db oid ≡ some (blank user_id (host.now draw))))

  kept_user : after_send.user_id ≡ c.user_id
  kept_user =
      ap (λ (r : Result (Unit {0}) × Client). r.1.user_id) (sends write writes creates_whiteboard c)

  ends_known :
      c.user_id ≢ 0
      → after ≡ (
        record after_send {
          whiteboard_id = M.oid_text (D.new_oid s.db);
          received_queue =
              after_send.received_queue
              ++ queued M (reliable host) e i (created_packet M D host request socket s s.db).1
                ∷ [];
        },
        (Connection.handle_packet M (reliable host) request socket s).1,
      )
  unfolding receive_all
  ends_known known =
      let created = create_known M D host request socket s known in
      exchange-one M (reliable host) e i (send write writes creates_whiteboard) socket c s request
        (created_packet M D host request socket s s.db ∷ []) sent_request
        (ap (λ (r : Result (Unit {0}) × Server M.Db). r.1.sent) (dispatched ∙ created.0))
      ∙ rw (==_refl socket) (
          ap
            (λ (r : Result (Unit {0}) × Client).
              (r.1, (Connection.handle_packet M (reliable host) request socket s).1))
            (receive-create M (reliable host) e i (next_id write writes c)
              (M.oid_text (D.new_oid s.db)) after_send (noted write writes creates_whiteboard c)))

  -- Where writes succeed and the client reads each packet by itself: a client with an id creates a
  -- whiteboard by one call. Then the client keeps its id and holds
  -- the id of a new whiteboard, which the server stores for the client's user.
  create_exchange : c.user_id ≢ 0 → Holds c.user_id s.draws
  create_exchange known =
      let created = create_known M D host request socket s known in
      (
        ap (λ (r : Client × Server M.Db). r.0.user_id) (ends_known known) ∙ kept_user,
        (
          D.new_oid s.db,
          rw (ends_known known) (D.read-oid_text (D.new_oid s.db)),
          D.new_oid_fresh s.db,
          rw (ends_known known) (rw (dispatched, created.0) created.1),
        ),
      )

  -- The id of an anonymous client's account, and the database with the account.
  abbrev uid : ℕ
  uid = Accounts.next_id (D.sequence s.db)

  abbrev with_account : M.Db
  with_account = joined M D host s.db (anonymous M D host uid)

  -- The packet that announces the id.
  abbrev announcing : WhiteboardPacket
  announcing = construct version WhiteboardPacketType.temp_id_response (host.rand s.draws)

  abbrev announced : PacketMessage
  announced = (new_temp_id_response true uid announcing).packet

  abbrev identified : Client
  identified = record after_send {
    user_id = uid;
    received_queue = after_send.received_queue ++ queued M (reliable host) e i announced ∷ [];
  }

  anonymous_sent :
      Accounts M D host s
      → c.user_id ≡ 0
      → (Connection.handle_packet M (reliable host) request socket s).1.sent
        ≡ s.sent ++ (socket, announced) ∷ created_packet M D host request socket s with_account ∷ []
  anonymous_sent inv unknown =
      ap (λ (r : Result (Unit {0}) × Server M.Db). r.1.sent)
        (dispatched ∙ create_anonymous M D host request socket s inv unknown)
      ∙ append_assoc s.sent _ _

  ends_anonymous :
      Accounts M D host s
      → c.user_id ≡ 0
      → after ≡ (
        record identified {
          whiteboard_id = M.oid_text (D.new_oid with_account);
          received_queue =
              identified.received_queue
              ++ queued M
                  (reliable host)
                  e
                  i
                  (created_packet M D host request socket s with_account).1
                ∷ [];
        },
        (Connection.handle_packet M (reliable host) request socket s).1,
      )
  unfolding receive_all
  ends_anonymous inv unknown =
      let server' : Server M.Db = (Connection.handle_packet M (reliable host) request socket s).1 in
      let reply = (created_packet M D host request socket s with_account).1 in
      exchange-one M (reliable host) e i (send write writes creates_whiteboard) socket c s request
        ((socket, announced) ∷ (socket, reply) ∷ []) sent_request (anonymous_sent inv unknown)
      ∙ rw (==_refl socket) (
          ap
            (λ (r : Result (Unit {0}) × Client).
              (receive_all M (reliable host) e i (reply ∷ []) r.1, server'))
            (receive-temp_id M (reliable host) e i announcing uid after_send)
          ∙ ap (λ (r : Result (Unit {0}) × Client). (r.1, server'))
              (receive-create M (reliable host) e i (next_id write writes c)
                (M.oid_text (D.new_oid with_account)) identified
                (noted write writes creates_whiteboard c)))

  -- Where writes succeed and the client reads each packet by itself, and with the server's accounts in
  -- order: an anonymous client creates a whiteboard by one call. Then the client has an id that no
  -- account had, the server has an anonymous account with this id behind the accounts from before,
  -- and the client holds the id of a new whiteboard, which the server stores for that account.
  pub create_exchange_anonymous :
      Accounts M D host s
      → c.user_id ≡ 0
      → Holds uid (s.draws + 1)
        × (with_id uid (D.users s.db) ≡ false)
        × (D.users after.1.db ≡ D.users s.db ++ anonymous M D host uid ∷ [])
  create_exchange_anonymous inv unknown =
      let created = create_anonymous M D host request socket s inv unknown in
      (
        (
          ap (λ (r : Client × Server M.Db). r.0.user_id) (ends_anonymous inv unknown),
          (
            D.new_oid with_account,
            rw (ends_anonymous inv unknown) (D.read-oid_text (D.new_oid with_account)),
            (sym (
                  D.whiteboard-user_added (D.counted s.db) (anonymous M D host uid)
                    (D.new_oid with_account)
                  ∙ D.whiteboard-counted s.db (D.new_oid with_account)))
                ∙ D.new_oid_fresh with_account,
            rw (ends_anonymous inv unknown) (
                rw (dispatched, created)
                  (rw (D.whiteboard-inserted, same_oid_refl D (D.new_oid with_account)) refl)),
          ),
        ),
        IdsBelow-with_id uid (D.users s.db) inv.below,
        rw (ends_anonymous inv unknown) (
            rw (dispatched, created)
              (rw (D.users-inserted, D.users-user_added, D.users-counted) refl)),
      )
