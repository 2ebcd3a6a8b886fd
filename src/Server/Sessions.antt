-- ===== src/Server/Sessions.antt =====
-- src/server/server.hpp: the member whiteboard_sessions, which maps a whiteboard's id to the set of
-- connected sockets, and the functions on it. A socket is its address; std::set keeps them in order.
pub mod Laws
pub mod Sets
pub mod Refinement
use xyzwhiteboard.Base.{
  ℕ, String, Bool, true, false, Option, none, some, List, [], ◌∷◌, ltb, ◌==◌, str_eq, if◌then◌else◌,
  without,
}

abbrev pub Sessions : Type 0
Sessions = List (String × List ℕ)

-- std::set::insert
unfoldable pub insert : ℕ → List ℕ → List ℕ
insert a [] = a ∷ []
insert a (x ∷ xs) =
    let rest = insert a xs in if a == x then x ∷ xs else if ltb a x then a ∷ x ∷ xs else x ∷ rest

-- whiteboard_sessions.find
unfoldable pub find : String → Sessions → Option (List ℕ)
find k [] = none
find k ((j, sockets) ∷ m) = if str_eq j k then some sockets else find k m

-- whiteboard_sessions[k] = sockets
unfoldable pub store : String → List ℕ → Sessions → Sessions
store k sockets [] = (k, sockets) ∷ []
store k sockets ((j, old) ∷ m) =
    if str_eq j k then (k, sockets) ∷ m else (j, old) ∷ store k sockets m

-- whiteboard_sessions.erase
unfoldable pub erase : String → Sessions → Sessions
erase k [] = []
erase k ((j, old) ∷ m) = let rest = erase k m in if str_eq j k then rest else (j, old) ∷ rest

-- whiteboard_sessions[k], which makes an empty set where there is none
abbrev pub at : String → Sessions → List ℕ
at k m = elim (find k m) [ none ↦ [] | some sockets ↦ sockets ]

unfoldable pub add_socket_to_whiteboard : String → ℕ → Sessions → Sessions
unfolding find store insert
add_socket_to_whiteboard whiteboard_id socket m =
    store whiteboard_id (insert socket (at whiteboard_id m)) m

abbrev is_empty : List ℕ → Bool
is_empty [] = true
is_empty (x ∷ xs) = false

-- `erase_socket` stands for the part after the test that the id was found.
erase_socket : String → ℕ → Sessions → Option (List ℕ) → Sessions
unfolding store erase without
erase_socket whiteboard_id socket m none = m
erase_socket whiteboard_id socket m (some socket_set) =
    let left = without socket socket_set in
    if is_empty left then erase whiteboard_id m else store whiteboard_id left m

unfoldable pub remove_socket_from_whiteboard : String → ℕ → Sessions → Sessions
unfolding find erase_socket
remove_socket_from_whiteboard whiteboard_id socket m =
    erase_socket whiteboard_id socket m (find whiteboard_id m)

unfoldable pub is_whiteboard_shared : String → Sessions → Bool
unfolding find
is_whiteboard_shared whiteboard_id m = elim (find whiteboard_id m) [ none ↦ false | some s ↦ true ]
