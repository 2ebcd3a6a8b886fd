-- ===== src/Examples/Users.antt =====
-- Uses of the theorems on accounts at concrete packets.
use xyzwhiteboard.Base.{String, some, [], ◌∷◌, ◌++◌, ◌≡◌, refl, arith}
use xyzwhiteboard.Base.Fail.{ok}
use xyzwhiteboard.Action.{PacketMessage, PacketAction}
use xyzwhiteboard.Server.Mongo.{UserDoc}
use xyzwhiteboard.Server.State.{Server}
use xyzwhiteboard.Server.Users.{generate_random_salt, handle_register_request, handle_login_request}
use xyzwhiteboard.Server.Users.Register.{Accounts, temp_id_packet}
use xyzwhiteboard.Server.Users.Accounts.{UsersInv}
use xyzwhiteboard.Server.Connection.{serve}
use xyzwhiteboard.Server.Connection.Accounts.{serve-Accounts}
use xyzwhiteboard.Server.Users.Login.{login-register}
use xyzwhiteboard.Examples.Memory.{Memory, memory, documented, host}

abbrev bob : UserDoc
bob = record { id = 0; username = "bob"; salt = some "s"; password_hash = some "h" }

abbrev pub one_user : Server Memory
one_user = record {
  db = record { boards = []; users = bob ∷ []; sequence = some 1 };
  whiteboard_sessions = [];
  sent = [];
  draws = 0;
}

abbrev registration : String → PacketMessage
registration name = record {
  version = 1;
  packet_type = 9;
  packet_id = 5;
  action = some (PacketAction.register_request (record { username = name; password_hash = "pw" }));
}

abbrev login : String → PacketMessage
login password = record {
  version = 1;
  packet_type = 10;
  packet_id = 6;
  action =
      some (PacketAction.login_request (record { username = "ann"; password_hash = password }));
}

abbrev pub one_user-Accounts : Accounts memory documented host one_user
one_user-Accounts = record { below = (omega arith, tt); distinct = (refl, λ h. refl, tt) }

-- The state after ann's registration.
abbrev after_ann : Server Memory
after_ann = (handle_register_request memory host (registration "ann") 7 one_user).1

abbrev ann_salt : String
ann_salt = generate_random_salt (host.uniform 0) 16 ""

login-register_example : handle_login_request memory host (login "pw") 8 after_ann ≡ (
  ok tt,
  record after_ann { sent = after_ann.sent ++ (8, temp_id_packet memory documented host 6 1) ∷ [] },
)
login-register_example =
    login-register memory documented host (registration "ann") (login "pw") 7 one_user
      one_user-Accounts refl refl 8 refl

serve-Accounts_example :
    UsersInv
      (serve memory host
        ((7, registration "ann") ∷ (8, registration "bob") ∷ (9, registration "ann") ∷ [])
        one_user).db.sequence
      (serve memory host
        ((7, registration "ann") ∷ (8, registration "bob") ∷ (9, registration "ann") ∷ [])
        one_user).db.users
serve-Accounts_example =
    serve-Accounts memory documented host
      ((7, registration "ann") ∷ (8, registration "bob") ∷ (9, registration "ann") ∷ []) one_user
      one_user-Accounts
