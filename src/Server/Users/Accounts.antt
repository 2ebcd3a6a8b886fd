-- ===== src/Server/Users/Accounts.antt =====
-- The documents of src/server/server.cpp's user collection: one id and one name for each user.
use mathlib.Core.Bool.{false≢true}
use xyzwhiteboard.Base.{
  Bool-cases, inl, inr, ℕ, ◌≤◌, ◌<◌, String, false, Option, none, some, List, [], ◌∷◌, ◌++◌, ◌≡◌,
  ◌≢◌, refl, arith, sym, ◌∙◌, ◌==◌, str_eq, eq_iff, if◌then◌else◌, ◌||◌,
}
use xyzwhiteboard.Server.Mongo.{UserDoc, with_username, with_id, successor}

-- The id that the next user gets.
abbrev pub next_id : Option ℕ → ℕ
next_id none = 0
next_id (some n) = n

abbrev IdsBelow : ℕ → List UserDoc → Type 0
IdsBelow n [] = Unit {0}
IdsBelow n (u ∷ us) = (u.id < n) × IdsBelow n us

-- No two users have one id, and no two one name, but for the anonymous ones without a name.
abbrev Distinct : List UserDoc → Type 0
Distinct [] = Unit {0}
Distinct (u ∷ us) =
    (with_id u.id us ≡ false) × (u.username ≢ "" → with_username u.username us ≡ none) × Distinct us

pub record UsersInv (sequence : Option ℕ) (users : List UserDoc) : Type 0 where
  pub below : IdsBelow (next_id sequence) users
  pub distinct : Distinct users

pub IdsBelow-with_id : (n : ℕ) (us : List UserDoc) → IdsBelow n us → with_id n us ≡ false
IdsBelow-with_id n [] b = refl
IdsBelow-with_id n (u ∷ us) b = ground (arith, IdsBelow-with_id n us b.1)

IdsBelow-append :
    (m n : ℕ) (us : List UserDoc) (u : UserDoc)
    → m ≤ n
    → u.id < n
    → IdsBelow m us
    → IdsBelow n (us ++ u ∷ [])
IdsBelow-append m n [] u h k b = (k, tt)
IdsBelow-append m n (v ∷ us) u h k b = (omega arith, IdsBelow-append m n us u h k b.1)

pub with_username-append :
    (name : String) (us : List UserDoc) (u : UserDoc)
    → with_username name us ≡ none
    → with_username name (us ++ u ∷ []) ≡ (if str_eq u.username name then some u else none)
with_username-append name [] u h = refl
with_username-append name (v ∷ us) u h = ground (arith, with_username-append name us u)

with_id-append :
    (id : ℕ) (us : List UserDoc) (u : UserDoc)
    → with_id id (us ++ u ∷ []) ≡ (with_id id us || u.id == id)
with_id-append id [] u = ground arith
with_id-append id (v ∷ us) u = ground (arith, with_id-append id us u)

with_username-cons :
    (name : String) (v : UserDoc) (us : List UserDoc)
    → with_username name (v ∷ us) ≡ none
    → (str_eq v.username name ≡ false) × (with_username name us ≡ none)
with_username-cons name v us h = ground arith

Distinct-append :
    (us : List UserDoc) (u : UserDoc)
    → Distinct us
    → with_id u.id us ≡ false
    → (u.username ≢ "" → with_username u.username us ≡ none)
    → Distinct (us ++ u ∷ [])
Distinct-append [] u d h k = (refl, (λ _. refl), tt)
Distinct-append (v ∷ us) u d h k = (
  ground (arith, with_id-append v.id us u),
  λ named. with_username-append v.username us u (d.1 named) ∙ rw (other named) refl,
  Distinct-append us u d.2 (ground arith) (λ named. (with_username-cons _ v us (k named)).1),
)
  where
    other : v.username ≢ "" → str_eq u.username v.username ≡ false
    other named = elim (Bool-cases (str_eq u.username v.username)) [
      | inr differ ↦ differ
      | inl same ↦
          let e : u.username ≡ v.username = (eq_iff _ _).0 same in
          let missed = (with_username-cons u.username v us (k (λ z. named (sym e ∙ z)))).0 in
          absurd (false≢true (sym missed ∙ (eq_iff v.username u.username).1 (sym e)))
    ]

next_id-lt : (o : Option ℕ) → (next_id o ≤ successor o) × (next_id o < successor o)
next_id-lt none = (omega arith, omega arith)
next_id-lt (some n) = (omega arith, omega arith)

-- A user with the next id joins the others, if the name is new or empty.
pub UsersInv-append :
    (sequence : Option ℕ) (us : List UserDoc) (u : UserDoc)
    → UsersInv sequence us
    → u.id ≡ next_id sequence
    → (u.username ≢ "" → with_username u.username us ≡ none)
    → UsersInv (some (successor sequence)) (us ++ u ∷ [])
UsersInv-append sequence us u inv e h = record {
  below =
      IdsBelow-append (next_id sequence) (successor sequence) us u (next_id-lt sequence).0
        (rw e (next_id-lt sequence).1) inv.below;
  distinct =
      Distinct-append us u inv.distinct (rw e (IdsBelow-with_id (next_id sequence) us inv.below)) h;
}
