-- ===== src/Network/Reports.antt =====
-- What the sessions of src/base/network.cpp print, and what they should.
use mathlib.Core.List.{append-nil}
use xyzwhiteboard.Base.{
  ℕ, zero, suc, String, Option, none, some, List, [], ◌∷◌, ◌++◌, ◌≡◌, refl, arith, ap, sym, ◌∙◌,
  length, get_elem?, set, ◌==◌, ==_iff, if◌then◌else◌, Bool-cases, inl, inr,
}
use xyzwhiteboard.Network.{
  idle, reading, ended, Session, Line, listening, accept_completed, accept_error, start_session,
  on_received, generate_session,
}

-- What was printed of the session's end: the message of the error and the bytes received.
unfoldable pub reports : ℕ → List Line → List (String × List ℕ)
reports i [] = []
reports i (on_received j message received ∷ printed) =
    let rest = reports i printed in if j == i then (message, received) ∷ rest else rest
reports i (_ ∷ printed) = reports i printed

-- What should have been printed.
abbrev pub due : Option Session → List (String × List ℕ)
due none = []
due (some s) = elim s.stage [
  | idle ↦ []
  | reading ↦ []
  | ended message ↦ (message, s.received) ∷ []
]

module _ {A : Type 0} where
  pub get_elem?-snoc :
      (xs : List A) (a : A) (i : ℕ)
      → get_elem? (xs ++ a ∷ []) i ≡ (if i == length xs then some a else get_elem? xs i)
  get_elem?-snoc [] a zero = ground arith
  get_elem?-snoc [] a (suc i) = ground arith
  get_elem?-snoc (x ∷ xs) a zero = ground arith
  get_elem?-snoc (x ∷ xs) a (suc i) = ground (arith, get_elem?-snoc xs a i)

  pub get_elem?-set :
      (xs : List A) (j : ℕ) (a b : A) (i : ℕ)
      → get_elem? xs j ≡ some b
      → get_elem? (set xs j a) i ≡ (if i == j then some a else get_elem? xs i)
  get_elem?-set [] j a b i h = cc
  get_elem?-set (x ∷ xs) zero a b zero h = ground arith
  get_elem?-set (x ∷ xs) zero a b (suc i) h = ground arith
  get_elem?-set (x ∷ xs) (suc j) a b zero h = ground arith
  get_elem?-set (x ∷ xs) (suc j) a b (suc i) h = ground (arith, get_elem?-set xs j a b i h)

  pub length-set : (xs : List A) (j : ℕ) (a : A) → length (set xs j a) ≡ length xs
  length-set [] j a = refl
  length-set (x ∷ xs) zero a = refl
  length-set (x ∷ xs) (suc j) a = omega (arith, length-set xs j a)

  get_elem?-length : (xs : List A) → get_elem? xs (length xs) ≡ none
  get_elem?-length [] = refl
  get_elem?-length (x ∷ xs) = get_elem?-length xs

pub reports-snoc :
    (i : ℕ) (printed : List Line) (line : Line)
    → reports i (printed ++ line ∷ []) ≡ reports i printed ++ reports i (line ∷ [])
unfolding reports
reports-snoc i [] line = refl
reports-snoc i (on_received j message received ∷ printed) line =
    ground (arith, reports-snoc i printed line)
reports-snoc i (listening ∷ printed) line = reports-snoc i printed line
reports-snoc i (accept_completed ∷ printed) line = reports-snoc i printed line
reports-snoc i (accept_error e ∷ printed) line = reports-snoc i printed line
reports-snoc i (start_session j ∷ printed) line = reports-snoc i printed line

pub silent :
    (i : ℕ) (printed : List Line) (line : Line)
    → reports i (line ∷ []) ≡ []
    → reports i (printed ++ line ∷ []) ≡ reports i printed
silent i printed line quiet =
    reports-snoc i printed line
    ∙ ap (λ (rest : List (String × List ℕ)). reports i printed ++ rest) quiet
    ∙ append-nil (reports i printed)

-- A session is replaced by one of which as much should have been printed.
pub due-set :
    (xs : List Session) (j : ℕ) (new old : Session) (i : ℕ)
    → get_elem? xs j ≡ some old
    → due (some old) ≡ due (some new)
    → due (get_elem? (set xs j new) i) ≡ due (get_elem? xs i)
due-set xs j new old i at same = elim (Bool-cases (i == j)) [
  | inl own ↦
      let e = (==_iff i j).0 own in
      ap due (get_elem?-set xs j new old i at)
      ∙ (rw own (sym same ∙ sym (ap due (ap (λ (n : ℕ). get_elem? xs n) e ∙ at))))
  | inr other ↦ ap due (get_elem?-set xs j new old i at) ∙ rw other refl
]

pub due-snoc :
    (xs : List Session) (i : ℕ)
    → due (get_elem? (xs ++ generate_session ∷ []) i) ≡ due (get_elem? xs i)
due-snoc xs i = elim (Bool-cases (i == length xs)) [
  | inl own ↦
      let e = (==_iff i (length xs)).0 own in
      ap due (get_elem?-snoc xs generate_session i)
      ∙ (rw own (sym (ap due (ap (λ (n : ℕ). get_elem? xs n) e ∙ get_elem?-length xs))))
  | inr other ↦ ap due (get_elem?-snoc xs generate_session i) ∙ rw other refl
]
