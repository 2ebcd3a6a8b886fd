-- ===== src/Server/Sessions/Laws.antt =====
-- The map of sessions under its operations.
use xyzwhiteboard.Base.{
  ℕ, String, Bool, true, false, Option, none, some, List, [], ◌∷◌, ◌≡◌, refl, arith, ◌==◌, str_eq,
  eq_iff, if◌then◌else◌, without, contains, contains-without, eq_refl,
}
use xyzwhiteboard.Server.Sessions.{
  Sessions, insert, find, store, erase, at, add_socket_to_whiteboard, erase_socket,
  remove_socket_from_whiteboard, is_whiteboard_shared,
}

pub find-store :
    (k j : String) (sockets : List ℕ) (m : Sessions)
    → find j (store k sockets m) ≡ (if str_eq k j then some sockets else find j m)
unfolding find store
find-store k j sockets [] = refl
find-store k j sockets ((i, old) ∷ m) =
    ground (arith, eq_iff k j, eq_iff i k, eq_iff i j, find-store k j sockets m)

pub find-erase :
    (k j : String) (m : Sessions) → find j (erase k m) ≡ (if str_eq k j then none else find j m)
unfolding find erase
find-erase k j [] = ground arith
find-erase k j ((i, old) ∷ m) = ground (arith, eq_iff k j, eq_iff i k, eq_iff i j, find-erase k j m)

pub contains-insert :
    (a b : ℕ) (xs : List ℕ) → contains b (insert a xs) ≡ (if a == b then true else contains b xs)
unfolding insert contains
contains-insert a b [] = ground arith
contains-insert a b (x ∷ xs) = ground (arith, contains-insert a b xs)

-- Connecting a socket puts it into the set of its whiteboard and changes no other set.
pub find-add_socket :
    (k j : String) (socket : ℕ) (m : Sessions)
    → find j (add_socket_to_whiteboard k socket m)
      ≡ (if str_eq k j then some (insert socket (at k m)) else find j m)
unfolding add_socket_to_whiteboard
find-add_socket k j socket m = find-store k j (insert socket (at k m)) m

-- What is left of the set of a whiteboard after a socket is removed.
unfoldable pub left_of : ℕ → Option (List ℕ) → Option (List ℕ)
left_of socket none = none
left_of socket (some sockets) = elim (without socket sockets) [ [] ↦ none | x ∷ xs ↦ some (x ∷ xs) ]

find-erase_socket :
    (k j : String) (socket : ℕ) (m : Sessions) (o : Option (List ℕ))
    → find k m ≡ o
    → find j (erase_socket k socket m o) ≡ (if str_eq k j then left_of socket o else find j m)
unfolding erase_socket left_of find
find-erase_socket k j socket m none h = ground (arith, eq_iff k j)
find-erase_socket k j socket m (some sockets) h =
    ground (arith, find-erase k j m, find-store k j (without socket sockets) m)

pub find-remove_socket :
    (k j : String) (socket : ℕ) (m : Sessions)
    → find j (remove_socket_from_whiteboard k socket m)
      ≡ (if str_eq k j then left_of socket (find k m) else find j m)
unfolding remove_socket_from_whiteboard
find-remove_socket k j socket m = find-erase_socket k j socket m (find k m) refl

-- Is the socket connected to the whiteboard?
abbrev pub connected : String → ℕ → Sessions → Bool
connected k socket m = contains socket (at k m)

abbrev listed : Option (List ℕ) → List ℕ
listed none = []
listed (some sockets) = sockets

listed-left_of :
    (socket : ℕ) (o : Option (List ℕ)) → listed (left_of socket o) ≡ without socket (listed o)
unfolding left_of without
listed-left_of socket none = refl
listed-left_of socket (some sockets) = ground arith

-- After a socket is connected to a whiteboard, the connected pairs of whiteboard and socket are
-- those from before and that one.
pub connected-add_socket :
    (k j : String) (socket other : ℕ) (m : Sessions)
    → connected j other (add_socket_to_whiteboard k socket m) ≡ (
        if str_eq k j
        then (if socket == other then true else connected j other m)
        else connected j other m)
connected-add_socket k j socket other m =
    ground (arith, eq_iff k j, find-add_socket k j socket m, contains-insert socket other (at k m))

pub connected-add_socket_self :
    (k : String) (socket : ℕ) (m : Sessions)
    → connected k socket (add_socket_to_whiteboard k socket m) ≡ true
connected-add_socket_self k socket m =
    ground (arith, eq_refl k, connected-add_socket k k socket socket m)

-- After a socket is removed from a whiteboard, the connected pairs of whiteboard and socket are
-- those from before but for that one.
pub connected-remove_socket :
    (k j : String) (socket other : ℕ) (m : Sessions)
    → connected j other (remove_socket_from_whiteboard k socket m) ≡ (
        if str_eq k j
        then (if socket == other then false else connected j other m)
        else connected j other m)
connected-remove_socket k j socket other m = ground (
  arith,
  eq_iff k j,
  find-remove_socket k j socket m,
  listed-left_of socket (find k m),
  contains-without socket other (at k m),
)

pub shared_of_find :
    (k : String) (m : Sessions) {sockets : List ℕ}
    → find k m ≡ some sockets
    → is_whiteboard_shared k m ≡ true
unfolding is_whiteboard_shared
shared_of_find k m h = ground arith

pub unshared_of_find :
    (k : String) (m : Sessions) → find k m ≡ none → is_whiteboard_shared k m ≡ false
unfolding is_whiteboard_shared
unshared_of_find k m h = ground arith

pub at_of_find :
    (k : String) (m : Sessions) {sockets : List ℕ} → find k m ≡ some sockets → at k m ≡ sockets
at_of_find k m h = ground arith

pub store-find :
    (k : String) (sockets : List ℕ) (m : Sessions) → find k m ≡ some sockets → store k sockets m ≡ m
unfolding find store
store-find k sockets [] h = cc
store-find k sockets ((j, old) ∷ m) h = ground (arith, eq_iff j k, store-find k sockets m)

pub find-add_socket_self :
    (k : String) (socket : ℕ) (m : Sessions)
    → find k (add_socket_to_whiteboard k socket m) ≡ some (insert socket (at k m))
find-add_socket_self k socket m = rw (find-add_socket, eq_refl k) refl
