-- ===== src/Sha256/Stream/Blocks.antt =====
-- Blocks of src/base/utils.cpp that agree on their first bytes, under the loops of `pad`.
use xyzwhiteboard.Base.{
  ℕ, zero, suc, ◌+◌, ◌<◌, ◌≤◌, false, List, [], ◌∷◌, ◌≡◌, ◌≢◌, refl, arith, ◌==◌, if◌then◌else◌,
  length, get_or, set, Bool-cases, ◌⊎◌, inl, inr, ap, sym, ◌∙◌,
}
use xyzwhiteboard.Sha256.Stream.Buffer.{length-set}
use xyzwhiteboard.Sha256.Stream.{fill_zero, put_length}

-- The first bytes of the two arrays are the same.
abbrev pub Agree : ℕ → List ℕ → List ℕ → Type 0
Agree n xs ys = (i : ℕ) → i < n → get_or xs i 0 ≡ get_or ys i 0

get_or-set :
    (xs : List ℕ) (i v j : ℕ)
    → i < length xs
    → get_or (set xs i v) j 0 ≡ (if i == j then v else get_or xs j 0)
get_or-set [] i v j h = omega arith
get_or-set (x ∷ xs) zero v zero h = ground arith
get_or-set (x ∷ xs) zero v (suc j) h = ground arith
get_or-set (x ∷ xs) (suc i) v zero h = ground arith
get_or-set (x ∷ xs) (suc i) v (suc j) h = ground (arith, get_or-set xs i v j)

pub equal : (xs ys : List ℕ) → length xs ≡ length ys → Agree (length xs) xs ys → xs ≡ ys
equal [] [] h a = refl
equal [] (y ∷ ys) h a = ground arith
equal (x ∷ xs) [] h a = ground arith
equal (x ∷ xs) (y ∷ ys) h a =
    ap (λ z. z ∷ xs) (a 0 (omega arith))
    ∙ ap (λ zs. y ∷ zs) (equal xs ys (omega arith) (λ i l. a (suc i) (omega arith)))

different : (a b : ℕ) → (a == b) ≡ false → a ≢ b
different a b h = ground arith

pub Agree-set :
    (n : ℕ) (xs ys : List ℕ) (v : ℕ)
    → length xs ≡ length ys
    → n < length xs
    → Agree n xs ys
    → Agree (suc n) (set xs n v) (set ys n v)
Agree-set n xs ys v h k a = λ i l.
    rw (get_or-set xs n v i k, get_or-set ys n v i (rw (← h) k))
      (elim (Bool-cases (n == i)) [
        | inl same ↦ rw same refl
        | inr other ↦ let e = different n i other in rw other (a i (omega arith))
      ])

pub length-fill_zero : (passes i : ℕ) (m : List ℕ) → length (fill_zero passes i m) ≡ length m
unfolding fill_zero
length-fill_zero zero i m = refl
length-fill_zero (suc passes) i m = length-fill_zero passes (i + 1) (set m i 0) ∙ length-set m i 0

pub Agree-fill_zero :
    (passes i : ℕ) (xs ys : List ℕ)
    → length xs ≡ length ys
    → i + passes ≤ length xs
    → Agree i xs ys
    → Agree (i + passes) (fill_zero passes i xs) (fill_zero passes i ys)
unfolding fill_zero
Agree-fill_zero zero i xs ys h k a = λ j l. a j (omega arith)
Agree-fill_zero (suc passes) i xs ys h k a =
    let xs-size = length-set xs i 0 in
    let ys-size = length-set ys i 0 in
    let one = Agree-set i xs ys 0 h (omega arith) a in
    let all =
      Agree-fill_zero passes (i + 1) (set xs i 0) (set ys i 0) (omega arith) (omega arith)
        (λ j l. one j (omega arith)) in
    λ j l. all j (omega arith)

beyond : (xs : List ℕ) (j : ℕ) → length xs ≤ j → get_or xs j 0 ≡ 0
beyond [] j h = refl
beyond (x ∷ xs) zero h = omega arith
beyond (x ∷ xs) (suc j) h = beyond xs j (omega arith)

-- Two blocks that may differ only from byte 56 on and before the given one.
record Except (m : ℕ) (xs ys : List ℕ) : Type 0 where
  left_size : length xs ≡ 64
  right_size : length ys ≡ 64
  same : (j : ℕ) → (j < 56) ⊎ (m ≤ j) → get_or xs j 0 ≡ get_or ys j 0

Except-set :
    (m v : ℕ) (xs ys : List ℕ) → m < 64 → Except (suc m) xs ys → Except m (set xs m v) (set ys m v)
Except-set m v xs ys h e = record {
  left_size = length-set xs m v ∙ e.left_size;
  right_size = length-set ys m v ∙ e.right_size;
  same = λ j where_j.
      rw (get_or-set xs m v j (rw e.left_size h), get_or-set ys m v j (rw e.right_size h))
        (elim (Bool-cases (m == j)) [
          | inl hit ↦ rw hit refl
          | inr other ↦
              let d = different m j other in
              rw other
                (e.same j (elim where_j [ inl low ↦ inl low | inr high ↦ inr (omega arith) ]))
        ]);
}

put_length-Except :
    (n : ℕ) (xs ys : List ℕ) → Except 64 xs ys → Except 56 (put_length n xs) (put_length n ys)
unfolding put_length
put_length-Except n xs ys e = Except-set 56 _ _ _ (omega arith) (
    Except-set 57 _ _ _ (omega arith) (
      Except-set 58 _ _ _ (omega arith) (
        Except-set 59 _ _ _ (omega arith) (
          Except-set 60 _ _ _ (omega arith) (
            Except-set 61 _ _ _ (omega arith)
              (Except-set 62 _ _ _ (omega arith) (Except-set 63 _ _ _ (omega arith) e)))))))

-- The length fills the last eight bytes, whatever was there.
pub put_length-same :
    (n : ℕ) (xs ys : List ℕ)
    → length xs ≡ 64
    → length ys ≡ 64
    → Agree 56 xs ys
    → put_length n xs ≡ put_length n ys
put_length-same n xs ys h k a =
    let filled = put_length-Except n xs ys (record {
      left_size = h;
      right_size = k;
      same = λ j l. elim l [
        | inl low ↦ a j low
        | inr high ↦ beyond xs j (omega arith) ∙ sym (beyond ys j (omega arith))
      ];
    }) in
    equal _ _ (filled.left_size ∙ sym filled.right_size) (λ j l. filled.same j (low_or_high j))
  where
    low_or_high : (j : ℕ) → (j < 56) ⊎ (56 ≤ j)
    low_or_high j = ground arith
