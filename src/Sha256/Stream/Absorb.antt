-- ===== src/Sha256/Stream/Absorb.antt =====
-- A message hashed byte by byte and block by block, apart from the class of src/base/utils.cpp: what
-- FIPS 180-4 defines from the compression function.
use mathlib.Core.List.{append_assoc}
use xyzwhiteboard.Base.{
  ℕ, zero, suc, ◌+◌, ◌-◌, ◌*◌, ◌%◌, ◌≤◌, false, List, [], ◌∷◌, ◌++◌, ◌≡◌, ◌≢◌, refl, arith, ◌==◌,
  ◌∙◌, sym, ap, if◌then◌else◌, length, length-append, drop, take, replicate,
}
use xyzwhiteboard.Sha256.Round.{compress}
use xyzwhiteboard.Sha256.Stream.{byte_of}

-- The length in bits as eight bytes, the highest first.
abbrev pub length_bytes : ℕ → List ℕ
length_bytes n =
    byte_of n 56
    ∷ byte_of n 48
    ∷ byte_of n 40
    ∷ byte_of n 32
    ∷ byte_of n 24
    ∷ byte_of n 16
    ∷ byte_of n 8
    ∷ byte_of n 0
    ∷ []

-- The least number of zeros that fills the last block.
abbrev pub zeros : ℕ → ℕ
zeros n = (119 - n % 64) % 64

abbrev pub padded : List ℕ → List ℕ
padded bytes =
    bytes ++ 0x80 ∷ (replicate (zeros (length bytes)) 0 ++ length_bytes (8 * length bytes))

abbrev pub hash_blocks : ℕ → List ℕ → List ℕ → List ℕ
hash_blocks zero state bytes = state
hash_blocks (suc blocks) state bytes =
    hash_blocks blocks (compress state (take 64 bytes)) (drop 64 bytes)

-- The state with the bytes of the block that is not yet full.
abbrev pub Partial : Type 0
Partial = List ℕ × List ℕ

unfoldable pub absorb_byte : Partial → ℕ → Partial
absorb_byte (state, xs) byte =
    let xs' = xs ++ byte ∷ [] in if length xs' == 64 then (compress state xs', []) else (state, xs')

unfoldable pub absorb : Partial → List ℕ → Partial
absorb p [] = p
absorb p (byte ∷ bytes) = absorb (absorb_byte p byte) bytes

pub absorb-append : (p : Partial) (xs ys : List ℕ) → absorb p (xs ++ ys) ≡ absorb (absorb p xs) ys
unfolding absorb
absorb-append p [] ys = refl
absorb-append p (x ∷ xs) ys = absorb-append (absorb_byte p x) xs ys

pub ==_of_ne : (a b : ℕ) → a ≢ b → (a == b) ≡ false
==_of_ne a b h = ground arith

-- Bytes that fill the block.
pub absorb-block :
    (state xs zs : List ℕ) (z : ℕ)
    → length xs + suc (length zs) ≡ 64
    → absorb (state, xs) (z ∷ zs) ≡ (compress state (xs ++ z ∷ zs), [])
unfolding absorb absorb_byte
absorb-block state xs [] z h =
    let full : length (xs ++ z ∷ []) ≡ 64 = omega (arith, length-append {0} xs (z ∷ [])) in
    rw full refl
absorb-block state xs (y ∷ zs) z h =
    let more : length (xs ++ z ∷ []) ≡ length xs + 1 = length-append {0} xs (z ∷ []) in
    rw (==_of_ne (length (xs ++ z ∷ [])) 64 (omega arith)) (
      absorb-block state (xs ++ z ∷ []) zs y (omega arith)
      ∙ ap (λ (b : List ℕ). (compress state b, [])) (append_assoc xs (z ∷ []) (y ∷ zs)))

pub length-drop : (n : ℕ) (zs : List ℕ) → length (drop n zs) ≡ length zs - n
length-drop zero zs = omega arith
length-drop (suc n) [] = omega arith
length-drop (suc n) (z ∷ zs) = omega (arith, length-drop n zs)

pub length-replicate : (n : ℕ) → length (replicate {A = ℕ} n 0) ≡ n
length-replicate zero = refl
length-replicate (suc n) = omega (arith, length-replicate n)

pub take-drop : (n : ℕ) (zs : List ℕ) → take n zs ++ drop n zs ≡ zs
take-drop zero zs = refl
take-drop (suc n) [] = refl
take-drop (suc n) (z ∷ zs) = ap (λ (l : List ℕ). z ∷ l) (take-drop n zs)

pub length-take : (n : ℕ) (zs : List ℕ) → n ≤ length zs → length (take n zs) ≡ n
length-take zero zs h = refl
length-take (suc n) [] h = omega arith
length-take (suc n) (z ∷ zs) h = omega (arith, length-take n zs (omega arith))

-- Whole blocks.
pub absorb-blocks :
    (blocks : ℕ) (state zs : List ℕ)
    → length zs ≡ blocks * 64
    → absorb (state, []) zs ≡ (hash_blocks blocks state zs, [])
unfolding absorb
absorb-blocks zero state [] h = refl
absorb-blocks zero state (z ∷ zs) h = absurd (omega arith)
absorb-blocks (suc blocks) state [] h = absurd (omega arith)
absorb-blocks (suc blocks) state (z ∷ zs) h =
    let first : length (take 63 zs) ≡ 63 = length-take 63 zs (omega arith) in
    ap (λ (l : List ℕ). absorb (absorb_byte (state, []) z) l) (sym (take-drop 63 zs))
    ∙ absorb-append (absorb_byte (state, []) z) (take 63 zs) (drop 63 zs)
    ∙ ap (λ (p : Partial). absorb p (drop 63 zs))
        (absorb-block state [] (take 63 zs) z (omega arith))
    ∙ absorb-blocks blocks (compress state (z ∷ take 63 zs)) (drop 63 zs)
        (omega (arith, length-drop 63 zs))

-- The bytes that padding appends to a block.
abbrev pub padding : ℕ → ℕ → List ℕ
padding len n = 0x80 ∷ (replicate (zeros len) 0 ++ length_bytes n)

pub replicate-append :
    (m n k : ℕ) → k ≡ m + n → replicate {A = ℕ} k 0 ≡ replicate m 0 ++ replicate n 0
replicate-append zero n k h =
    let same : k ≡ n = omega arith in ap (λ (j : ℕ). replicate {A = ℕ} j 0) same
replicate-append (suc m) n zero h = absurd (omega arith)
replicate-append (suc m) n (suc k) h =
    ap (λ (l : List ℕ). 0 ∷ l) (replicate-append m n k (omega arith))

pub drop_all : (n : ℕ) (zs : List ℕ) → length zs ≡ n → drop n zs ≡ []
drop_all zero [] h = refl
drop_all zero (z ∷ zs) h = absurd (omega arith)
drop_all (suc n) [] h = refl
drop_all (suc n) (z ∷ zs) h = drop_all n zs (omega arith)
