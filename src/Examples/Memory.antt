-- ===== src/Examples/Memory.antt =====
-- A database in memory that behaves as the interface of Server.Mongo documents.
use xyzwhiteboard.Base.{
  true, ℕ, zero, suc, ◌+◌, ◌%◌, String, Option, none, some, List, [], ◌∷◌, ◌++◌, ◌≡◌, refl, arith,
  length, set, ◌==◌, ==_iff, if◌then◌else◌,
}
use xyzwhiteboard.Base.Fail.{Result, ok, thrown}
use xyzwhiteboard.Proto.{Element}
use xyzwhiteboard.Server.Mongo.{
  Mongo, Documented, WhiteboardDoc, UserDoc, Operator, conflicting, apply_operators, on_some,
  with_username, with_id, successor,
}
use xyzwhiteboard.Server.State.{Host}

-- The n-th id is a text of n + 1 letters.
abbrev pub read_oid : String → Result ℕ
read_oid String.[] = thrown "bsoncxx::exception"
read_oid (String.◌∷◌ c String.[]) = ok 0
read_oid (String.◌∷◌ c (String.◌∷◌ d s)) = elim (read_oid (String.◌∷◌ d s)) [
  | ok n ↦ ok (suc n)
  | thrown e ↦ thrown e
]

abbrev pub oid_text : ℕ → String
oid_text zero = "o"
oid_text (suc n) = String.◌∷◌ "o" (oid_text n)

-- A deleted document leaves its place empty.
pub record Memory : Type 0 where
  pub boards : List (Option WhiteboardDoc)
  pub users : List UserDoc
  pub sequence : Option ℕ

abbrev pub board : List (Option WhiteboardDoc) → ℕ → Option WhiteboardDoc
board [] n = none
board (b ∷ bs) zero = b
board (b ∷ bs) (suc n) = board bs n

abbrev pub updated : Memory → ℕ → List Operator → Memory
updated db o ops = record db {
  boards = set db.boards o (on_some (apply_operators ops) (board db.boards o));
}

abbrev pub added : Memory → UserDoc → Memory
added db u = record db { users = db.users ++ u ∷ [] }

abbrev pub counted : Memory → Memory
counted db = record db { sequence = some (successor db.sequence) }

abbrev pub memory : Mongo
memory = record {
  Db = Memory;
  Oid = ℕ;
  read_oid = read_oid;
  oid_text = oid_text;
  find_whiteboard = λ o db. (ok (board db.boards o), db);
  insert_whiteboard =
      λ d db. (ok (some (length db.boards)), record db { boards = db.boards ++ some d ∷ [] });
  update_whiteboard =
      λ o ops db. if conflicting ops then (thrown "conflict", db) else (ok tt, updated db o ops);
  delete_whiteboard = λ o db. (ok tt, record db { boards = set db.boards o none });
  find_user = λ name db. (ok (with_username name db.users), db);
  insert_user =
      λ u db. if with_id u.id db.users then (thrown "E11000", db) else (ok (some 1), added db u);
  next_sequence = λ db. (ok (on_some some db.sequence), counted db);
}

pub read-oid_text : (n : ℕ) → read_oid (oid_text n) ≡ ok n
read-oid_text zero = refl
read-oid_text (suc zero) = refl
read-oid_text (suc (suc n)) = rw (read-oid_text (suc n)) refl

pub board-length : (bs : List (Option WhiteboardDoc)) → board bs (length bs) ≡ none
board-length [] = refl
board-length (b ∷ bs) = board-length bs

pub board-append :
    (bs : List (Option WhiteboardDoc)) (d : WhiteboardDoc) (o : ℕ)
    → board (bs ++ some d ∷ []) o ≡ (if length bs == o then some d else board bs o)
board-append [] d zero = ground arith
board-append [] d (suc o) = ground arith
board-append (b ∷ bs) d zero = ground arith
board-append (b ∷ bs) d (suc o) = ground (arith, board-append bs d o)

pub board-set :
    (bs : List (Option WhiteboardDoc)) (o : ℕ) (f : Option WhiteboardDoc → Option WhiteboardDoc)
    (p : ℕ)
    → f none ≡ none
    → board (set bs o (f (board bs o))) p ≡ (if o == p then f (board bs p) else board bs p)
board-set [] o f p h = ground arith
board-set (b ∷ bs) zero f zero h = ground arith
board-set (b ∷ bs) zero f (suc p) h = ground arith
board-set (b ∷ bs) (suc o) f zero h = ground arith
board-set (b ∷ bs) (suc o) f (suc p) h = ground (arith, board-set bs o f p h)

abbrev pub documented : Documented memory
documented = record {
  whiteboard = λ db o. board db.boards o;
  users = λ db. db.users;
  sequence = λ db. db.sequence;
  same_oid = λ o p. o == p;
  same_oid_iff = ==_iff;
  read-oid_text = read-oid_text;
  find_lem = λ o db. refl;
  new_oid = λ db. length db.boards;
  inserted = λ db d. record db { boards = db.boards ++ some d ∷ [] };
  insert_lem = λ d db. refl;
  new_oid_fresh = λ db. board-length db.boards;
  whiteboard-inserted = λ db d o. board-append db.boards d o;
  users-inserted = λ db d. refl;
  sequence-inserted = λ db d. refl;
  updated = updated;
  update_lem = λ o ops db h. rw h refl;
  whiteboard-updated = λ db o ops p. board-set db.boards o (on_some (apply_operators ops)) p refl;
  users-updated = λ db o ops. refl;
  sequence-updated = λ db o ops. refl;
  conflict_error = "conflict";
  update_conflict = λ o ops db h. rw h refl;
  deleted = λ db o. record db { boards = set db.boards o none };
  delete_lem = λ o db. refl;
  whiteboard-deleted = λ db o p. board-set db.boards o (λ b. none) p refl;
  users-deleted = λ db o. refl;
  sequence-deleted = λ db o. refl;
  find_user_lem = λ name db. refl;
  user_added = added;
  insert_user_lem = λ u db h. rw h refl;
  users-user_added = λ db u. refl;
  whiteboard-user_added = λ db u o. refl;
  sequence-user_added = λ db u. refl;
  duplicate_error = "E11000";
  insert_user_duplicate = λ u db h. rw h refl;
  counted = counted;
  next_sequence_lem = λ db. refl;
  sequence-counted = λ db. refl;
  users-counted = λ db. refl;
  whiteboard-counted = λ db o. refl;
}

-- Texts without a place survive this serialization.
abbrev pub serialize : Element → String
serialize (Element.text m) = String.◌∷◌ "t" m.content
serialize _ = ""

abbrev pub parse : String → Element
parse String.[] = Element.element_type_not_set
parse (String.◌∷◌ c s) = Element.text (record { common = none; center = none; content = s })

abbrev pub host : Host
host = record {
  rand = λ n. n + 100;
  now = λ n. n;
  uniform = λ n i. (n + i) % 62;
  serialize_element = serialize;
  parse_element = parse;
  writes = λ sent socket m. true;
}
