-- ===== src/Server/Sessions/Refinement.antt =====
-- What the table of sessions of src/server/server.hpp stands for: which socket is in which session.
use mathlib.Core.Bool.{false≢true}
use xyzwhiteboard.Base.{
  ℕ, String, Bool, true, false, none, List, [], ◌∷◌, ◌≡◌, ◌≢◌, refl, arith, sym, ap, ◌∙◌, ◌==◌,
  ==_refl, str_eq, if◌then◌else◌, contains, Option-cases, inl, inr,
}
use xyzwhiteboard.Server.Sessions.{
  Sessions, find, at, add_socket_to_whiteboard, remove_socket_from_whiteboard, is_whiteboard_shared,
}
use xyzwhiteboard.Server.Sessions.Laws.{
  connected, connected-add_socket, connected-remove_socket, shared_of_find, unshared_of_find,
  at_of_find,
}
use xyzwhiteboard.Server.Sessions.Sets.{
  SessionsInv, add_socket-SessionsInv, remove_socket-SessionsInv,
}

pub data Operation : Type 0 where
  adds removes : String → ℕ → Operation

abbrev pub apply : Operation → Sessions → Sessions
apply (adds k socket) m = add_socket_to_whiteboard k socket m
apply (removes k socket) m = remove_socket_from_whiteboard k socket m

abbrev pub apply_all : List Operation → Sessions → Sessions
apply_all [] m = m
apply_all (o ∷ os) m = apply_all os (apply o m)

-- The set of pairs that the table stands for, and the operations on it.
abbrev pub Pairs : Type 0
Pairs = String → ℕ → Bool

abbrev pub specified : Operation → Pairs → Pairs
specified (adds k socket) p j other =
    if str_eq k j then (if socket == other then true else p j other) else p j other
specified (removes k socket) p j other =
    if str_eq k j then (if socket == other then false else p j other) else p j other

abbrev pub specified_all : List Operation → Pairs → Pairs
specified_all [] p = p
specified_all (o ∷ os) p = specified_all os (specified o p)

-- The table holds the pairs of the set, and a whiteboard counts as shared just if a socket is in its
-- session.
pub record Refines (m : Sessions) (p : Pairs) : Type 0 where
  pub pairs : (k : String) (socket : ℕ) → connected k socket m ≡ p k socket
  pub shared_has :
      (k : String) → is_whiteboard_shared k m ≡ true → (socket : ℕ) × (p k socket ≡ true)
  pub has_shared : (k : String) (socket : ℕ) → p k socket ≡ true → is_whiteboard_shared k m ≡ true

head_of : (xs : List ℕ) → xs ≢ [] → (x : ℕ) × (contains x xs ≡ true)
unfolding contains
head_of [] h = absurd (h refl)
head_of (x ∷ xs) h = (x, rw (==_refl x) refl)

nobody : (k : String) (socket : ℕ) (m : Sessions) → find k m ≡ none → connected k socket m ≡ false
unfolding contains
nobody k socket m closed =
    let empty : at k m ≡ [] = ground arith in ap (λ sockets. contains socket sockets) empty

pairs-Refines :
    (m : Sessions) (p : Pairs)
    → SessionsInv m
    → ((k : String) (socket : ℕ) → connected k socket m ≡ p k socket)
    → Refines m p
pairs-Refines m p inv pairs = record {
  pairs = pairs;
  shared_has = λ k shared. elim (Option-cases (find k m)) [
    | inl closed ↦ absurd (false≢true (sym (unshared_of_find k m closed) ∙ shared))
    | inr (sockets, found) ↦
        let (socket, member) = head_of sockets (inv.sets k sockets found).0 in
        (socket, sym (pairs k socket) ∙ rw (at_of_find k m found) member)
  ];
  has_shared = λ k socket member. elim (Option-cases (find k m)) [
    | inl closed ↦ absurd (false≢true (sym (nobody k socket m closed) ∙ pairs k socket ∙ member))
    | inr (sockets, found) ↦ shared_of_find k m found
  ];
}

all_refine :
    (os : List Operation) (m : Sessions) (p : Pairs)
    → SessionsInv m
    → ((k : String) (socket : ℕ) → connected k socket m ≡ p k socket)
    → Refines (apply_all os m) (specified_all os p)
all_refine [] m p inv pairs = pairs-Refines m p inv pairs
all_refine (adds k socket ∷ os) m p inv pairs =
    all_refine os _ _ (add_socket-SessionsInv k socket m inv)
      (λ j other. connected-add_socket k j socket other m ∙ rw (pairs j other) refl)
all_refine (removes k socket ∷ os) m p inv pairs =
    all_refine os _ _ (remove_socket-SessionsInv k socket m inv)
      (λ j other. connected-remove_socket k j socket other m ∙ rw (pairs j other) refl)

-- However sockets are added and removed from the empty table on, the table stands for the set of pairs
-- of whiteboard and socket that the same operations make on sets: it connects just those pairs, and
-- a whiteboard counts as shared just if a pair has it.
pub refines :
    (os : List Operation) → Refines (apply_all os []) (specified_all os (λ k socket. false))
unfolding find contains
refines os = all_refine os [] _ (record { sets = λ k sockets e. cc }) (λ k socket. refl)
