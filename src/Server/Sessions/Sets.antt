-- ===== src/Server/Sessions/Sets.antt =====
-- The sets of sockets in the table of src/server/server.hpp.
use xyzwhiteboard.Base.{
  ℕ, suc, ◌≤◌, String, Option, none, some, List, [], ◌∷◌, ◌≡◌, ◌≢◌, refl, arith, str_eq, without,
  inl, inr, Bool-cases,
}
use xyzwhiteboard.Server.Sessions.{
  Sessions, find, insert, at, add_socket_to_whiteboard, remove_socket_from_whiteboard,
}
use xyzwhiteboard.Server.Sessions.Laws.{find-add_socket, find-remove_socket, left_of}

-- The addresses rise along the list, from the bound on.
abbrev pub From : ℕ → List ℕ → Type 0
From n [] = Unit {0}
From n (x ∷ xs) = (n ≤ x) × From (suc x) xs

-- A set of sockets as std::set holds it, with a socket in it: the addresses rise.
abbrev pub IsSocketSet : List ℕ → Type 0
IsSocketSet xs = (xs ≢ []) × From 0 xs

From-insert : (n a : ℕ) (xs : List ℕ) → n ≤ a → From n xs → From n (insert a xs)
unfolding insert
From-insert n a [] h b = (h, tt)
From-insert n a (x ∷ xs) h b = ground (arith, From-insert (suc x) a xs)

From-mono : (m n : ℕ) (xs : List ℕ) → m ≤ n → From n xs → From m xs
From-mono m n [] h b = tt
From-mono m n (x ∷ xs) h b = (omega arith, b.1)

From-without : (n a : ℕ) (xs : List ℕ) → From n xs → From n (without a xs)
unfolding without
From-without n a [] b = tt
From-without n a (x ∷ xs) b =
    ground (arith, From-without (suc x) a xs b.1, From-mono n (suc x) (without a xs))

insert-ne-nil : (a : ℕ) (xs : List ℕ) → insert a xs ≢ []
unfolding insert
insert-ne-nil a [] = λ e. cc
insert-ne-nil a (x ∷ xs) = ground arith

-- Every set of sockets in the table is one that std::set can hold, and none is empty.
pub record SessionsInv (m : Sessions) : Type 0 where
  pub sets : (k : String) (sockets : List ℕ) → find k m ≡ some sockets → IsSocketSet sockets

listed-From :
    (o : Option (List ℕ))
    → ((sockets : List ℕ) → o ≡ some sockets → IsSocketSet sockets)
    → From 0 (elim o [ none ↦ [] | some sockets ↦ sockets ])
listed-From none h = tt
listed-From (some sockets) h = (h sockets refl).1

at-From : (k : String) (m : Sessions) → SessionsInv m → From 0 (at k m)
at-From k m h = listed-From (find k m) (h.sets k)

pub add_socket-SessionsInv :
    (k : String) (socket : ℕ) (m : Sessions)
    → SessionsInv m
    → SessionsInv (add_socket_to_whiteboard k socket m)
add_socket-SessionsInv k socket m h = record {
  sets = λ j sockets e. elim (Bool-cases (str_eq k j)) [
    | inl same ↦
        let e' : insert socket (at k m) ≡ sockets = ground (arith, find-add_socket k j socket m) in
        rw (← e') (
          insert-ne-nil socket (at k m),
          From-insert 0 socket (at k m) (omega arith) (at-From k m h),
        )
    | inr other ↦ h.sets j sockets (ground (arith, find-add_socket k j socket m))
  ];
}

left_of-IsSocketSet :
    (socket : ℕ) (o : Option (List ℕ)) (sockets : List ℕ)
    → ((old : List ℕ) → o ≡ some old → IsSocketSet old)
    → left_of socket o ≡ some sockets
    → IsSocketSet sockets
unfolding left_of
left_of-IsSocketSet socket none sockets h e = cc
left_of-IsSocketSet socket (some old) sockets h e =
    let rising = From-without 0 socket old (h old refl).1 in ground arith

pub remove_socket-SessionsInv :
    (k : String) (socket : ℕ) (m : Sessions)
    → SessionsInv m
    → SessionsInv (remove_socket_from_whiteboard k socket m)
remove_socket-SessionsInv k socket m h = record {
  sets = λ j sockets e. elim (Bool-cases (str_eq k j)) [
    | inl same ↦
        left_of-IsSocketSet socket (find k m) sockets (h.sets k)
          (ground (arith, find-remove_socket k j socket m))
    | inr other ↦ h.sets j sockets (ground (arith, find-remove_socket k j socket m))
  ];
}
