-- ===== src/Server/Mongo.antt =====
-- The database that src/server/server.cpp calls, MongoDB through mongocxx, as an interface: its
-- operations, and beside them its documented behaviour while it answers. `created_at` is a time.
pub mod Laws
use xyzwhiteboard.Base.{
  ℕ, suc, String, Bool, true, false, Option, none, some, List, [], ◌∷◌, ◌++◌, map, ◌≡◌, ◌↔◌, ◌||◌,
  if◌then◌else◌, str_eq, ◌==◌, without, with_member,
}
use xyzwhiteboard.Base.Fail.{Result, ok, thrown, Action}

-- A document of the collection `whiteboards`; a field may be absent.
pub record WhiteboardDoc : Type 0 where
  pub uid : Option ℕ
  pub elements : Option (List String)
  pub created_at : ℕ
  pub active_user_ids : Option (List ℕ)

-- A document of the collection `users`.
pub record UserDoc : Type 0 where
  pub id : ℕ
  pub username : String
  pub salt : Option String
  pub password_hash : Option String

-- The update operators that the server uses, `$set`, `$addToSet`, `$pull` and `$push`, on a field.
pub data Operator : Type 0 where
  set_active_user_ids : List ℕ → Operator
  add_to_set_active_user_ids pull_active_user_ids : ℕ → Operator
  pull_elements push_elements : String → Operator

pub record Mongo : Type 1 where
  pub Db : Type 0
  pub Oid : Type 0
  -- bsoncxx::oid{text}, which throws on a text that is no id
  pub read_oid : String → Result Oid
  pub oid_text : Oid → String
  pub find_whiteboard : Oid → Action Db (Option WhiteboardDoc)
  pub insert_whiteboard : WhiteboardDoc → Action Db (Option Oid)
  pub update_whiteboard : Oid → List Operator → Action Db (Unit {0})
  pub delete_whiteboard : Oid → Action Db (Unit {0})
  pub find_user : String → Action Db (Option UserDoc)
  -- the inserted count
  pub insert_user : UserDoc → Action Db (Option ℕ)
  -- the document before `$inc`, and its field `seq`
  pub next_sequence : Action Db (Option (Option ℕ))

abbrev path : Operator → String
path (set_active_user_ids ids) = "active_user_ids"
path (add_to_set_active_user_ids id) = "active_user_ids"
path (pull_active_user_ids id) = "active_user_ids"
path (pull_elements e) = "elements"
path (push_elements e) = "elements"

abbrev names : String → List Operator → Bool
names p [] = false
names p (o ∷ os) = str_eq (path o) p || names p os

-- Two operators of one update name the same field.
abbrev pub conflicting : List Operator → Bool
conflicting [] = false
conflicting (o ∷ os) = names (path o) os || conflicting os

abbrev without_text : String → List String → List String
without_text s [] = []
without_text s (t ∷ ts) = if str_eq t s then without_text s ts else t ∷ without_text s ts

abbrev pub or_empty : Option (List String) → List String
or_empty none = []
or_empty (some ts) = ts

abbrev pub on_some {ℓ κ} : {A : Type ℓ} {B : Type κ} → (A → B) → Option A → Option B
on_some f none = none
on_some f (some a) = some (f a)

abbrev pub apply_operator : Operator → WhiteboardDoc → WhiteboardDoc
apply_operator (set_active_user_ids ids) d = record d { active_user_ids = some ids }
apply_operator (add_to_set_active_user_ids id) d = record d {
  active_user_ids = elim d.active_user_ids [
    | none ↦ some (id ∷ [])
    | some ids ↦ some (with_member id ids)
  ];
}
apply_operator (pull_active_user_ids id) d = record d {
  active_user_ids = on_some (without id) d.active_user_ids;
}
apply_operator (pull_elements e) d = record d { elements = on_some (without_text e) d.elements }
apply_operator (push_elements e) d = record d { elements = some (or_empty d.elements ++ e ∷ []) }

abbrev pub apply_operators : List Operator → WhiteboardDoc → WhiteboardDoc
apply_operators [] d = d
apply_operators (o ∷ os) d = apply_operators os (apply_operator o d)

abbrev pub with_username : String → List UserDoc → Option UserDoc
with_username name [] = none
with_username name (u ∷ us) = if str_eq u.username name then some u else with_username name us

abbrev pub with_id : ℕ → List UserDoc → Bool
with_id id [] = false
with_id id (u ∷ us) = u.id == id || with_id id us

abbrev pub successor : Option ℕ → ℕ
successor none = 1
successor (some n) = suc n

-- What a database answers while it is up and its documents have the fields above.
pub record Documented (M : Mongo) : Type 0 where
  pub whiteboard : M.Db → M.Oid → Option WhiteboardDoc
  pub users : M.Db → List UserDoc
  pub sequence : M.Db → Option ℕ
  pub same_oid : M.Oid → M.Oid → Bool
  pub same_oid_iff : (o p : M.Oid) → (same_oid o p ≡ true) ↔ (o ≡ p)
  pub read-oid_text : (o : M.Oid) → M.read_oid (M.oid_text o) ≡ ok o
  pub find_lem : (o : M.Oid) (db : M.Db) → M.find_whiteboard o db ≡ (ok (whiteboard db o), db)
  -- an insertion makes an id that no document has
  pub new_oid : M.Db → M.Oid
  pub inserted : M.Db → WhiteboardDoc → M.Db
  pub insert_lem :
      (d : WhiteboardDoc) (db : M.Db)
      → M.insert_whiteboard d db ≡ (ok (some (new_oid db)), inserted db d)
  pub new_oid_fresh : (db : M.Db) → whiteboard db (new_oid db) ≡ none
  pub whiteboard-inserted :
      (db : M.Db) (d : WhiteboardDoc) (o : M.Oid)
      → whiteboard (inserted db d) o ≡ (if same_oid (new_oid db) o then some d else whiteboard db o)
  pub users-inserted : (db : M.Db) (d : WhiteboardDoc) → users (inserted db d) ≡ users db
  pub sequence-inserted : (db : M.Db) (d : WhiteboardDoc) → sequence (inserted db d) ≡ sequence db
  -- an update without a conflict is applied to the document with the id, if there is one; one with
  -- a conflict is refused as a whole
  pub updated : M.Db → M.Oid → List Operator → M.Db
  pub update_lem :
      (o : M.Oid) (ops : List Operator) (db : M.Db)
      → conflicting ops ≡ false
      → M.update_whiteboard o ops db ≡ (ok tt, updated db o ops)
  pub whiteboard-updated :
      (db : M.Db) (o : M.Oid) (ops : List Operator) (p : M.Oid)
      → whiteboard (updated db o ops) p ≡ (
          if same_oid o p then on_some (apply_operators ops) (whiteboard db p) else whiteboard db p)
  pub users-updated :
      (db : M.Db) (o : M.Oid) (ops : List Operator) → users (updated db o ops) ≡ users db
  pub sequence-updated :
      (db : M.Db) (o : M.Oid) (ops : List Operator) → sequence (updated db o ops) ≡ sequence db
  pub conflict_error : String
  pub update_conflict :
      (o : M.Oid) (ops : List Operator) (db : M.Db)
      → conflicting ops ≡ true
      → M.update_whiteboard o ops db ≡ (thrown conflict_error, db)
  pub deleted : M.Db → M.Oid → M.Db
  pub delete_lem : (o : M.Oid) (db : M.Db) → M.delete_whiteboard o db ≡ (ok tt, deleted db o)
  pub whiteboard-deleted :
      (db : M.Db) (o p : M.Oid)
      → whiteboard (deleted db o) p ≡ (if same_oid o p then none else whiteboard db p)
  pub users-deleted : (db : M.Db) (o : M.Oid) → users (deleted db o) ≡ users db
  pub sequence-deleted : (db : M.Db) (o : M.Oid) → sequence (deleted db o) ≡ sequence db
  -- `find_one` answers the first match in the order of insertion
  pub find_user_lem :
      (name : String) (db : M.Db) → M.find_user name db ≡ (ok (with_username name (users db)), db)
  -- the key `_id` is unique
  pub user_added : M.Db → UserDoc → M.Db
  pub insert_user_lem :
      (u : UserDoc) (db : M.Db)
      → with_id u.id (users db) ≡ false
      → M.insert_user u db ≡ (ok (some 1), user_added db u)
  pub users-user_added : (db : M.Db) (u : UserDoc) → users (user_added db u) ≡ users db ++ u ∷ []
  pub whiteboard-user_added :
      (db : M.Db) (u : UserDoc) (o : M.Oid) → whiteboard (user_added db u) o ≡ whiteboard db o
  pub sequence-user_added : (db : M.Db) (u : UserDoc) → sequence (user_added db u) ≡ sequence db
  pub duplicate_error : String
  pub insert_user_duplicate :
      (u : UserDoc) (db : M.Db)
      → with_id u.id (users db) ≡ true
      → M.insert_user u db ≡ (thrown duplicate_error, db)
  -- the upsert answers nothing the first time, and after that the document as it was
  pub counted : M.Db → M.Db
  pub next_sequence_lem :
      (db : M.Db) → M.next_sequence db ≡ (ok (on_some some (sequence db)), counted db)
  pub sequence-counted : (db : M.Db) → sequence (counted db) ≡ some (successor (sequence db))
  pub users-counted : (db : M.Db) → users (counted db) ≡ users db
  pub whiteboard-counted : (db : M.Db) (o : M.Oid) → whiteboard (counted db) o ≡ whiteboard db o
