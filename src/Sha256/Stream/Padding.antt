-- ===== src/Sha256/Stream/Padding.antt =====
-- `pad` of src/base/utils.cpp does to an object what the bytes of the padding do to a state and a block.
use mathlib.Core.List.{append_assoc, append-nil}
use xyzwhiteboard.Base.{
  ℕ, zero, suc, ◌+◌, ◌-◌, ◌*◌, ◌%◌, ◌<◌, ◌≤◌, true, false, List, [], ◌∷◌, ◌++◌, ◌≡◌, refl, arith,
  ◌∙◌, sym, ap, if◌then◌else◌, leb, ltb, length, length-append, drop, replicate, get_or, Bool-cases,
  inl, inr,
}
use xyzwhiteboard.Sha256.Round.{compress}
use xyzwhiteboard.Sha256.Stream.{Sha256, u64, byte_of, fill_zero, put_length, marked, pad}
use xyzwhiteboard.Sha256.Stream.Absorb.{
  length_bytes, zeros, Partial, absorb, absorb-append, absorb-block, length-drop, length-replicate,
  padding, replicate-append, drop_all,
}
use xyzwhiteboard.Sha256.Stream.Simulation.{set_at, machine}
use xyzwhiteboard.Sha256.Stream.Memory.{pad-fits, pad-spilled}

pub fill_zero_at :
    (passes i : ℕ) (xs ys : List ℕ)
    → i ≡ length xs
    → passes ≤ length ys
    → fill_zero passes i (xs ++ ys) ≡ xs ++ (replicate passes 0 ++ drop passes ys)
unfolding fill_zero
fill_zero_at zero i xs ys h k = refl
fill_zero_at (suc passes) i xs [] h k = absurd (omega arith)
fill_zero_at (suc passes) i xs (y ∷ ys) h k =
    ap (λ (m : List ℕ). fill_zero passes (i + 1) m)
      (set_at xs (y ∷ ys) i 0 0 (omega arith) ∙ sym (append_assoc xs (0 ∷ []) ys))
    ∙ fill_zero_at passes (i + 1) (xs ++ 0 ∷ []) ys (omega (arith, length-append {0} xs (0 ∷ [])))
        (omega arith)
    ∙ append_assoc xs (0 ∷ []) _

pub put_length_at :
    (n : ℕ) (xs : List ℕ) (a b c d e f g h : ℕ)
    → length xs ≡ 56
    → put_length n (xs ++ a ∷ b ∷ c ∷ d ∷ e ∷ f ∷ g ∷ h ∷ []) ≡ xs ++ length_bytes n
unfolding put_length
put_length_at n xs a b c d e f g h size =
    rw (set_at xs (a ∷ b ∷ c ∷ d ∷ e ∷ f ∷ g ∷ h ∷ []) 63 7 (byte_of n 0) (omega arith)) (
      rw (set_at xs _ 62 6 (byte_of n 8) (omega arith)) (
        rw (set_at xs _ 61 5 (byte_of n 16) (omega arith)) (
          rw (set_at xs _ 60 4 (byte_of n 24) (omega arith)) (
            rw (set_at xs _ 59 3 (byte_of n 32) (omega arith)) (
              rw (set_at xs _ 58 2 (byte_of n 40) (omega arith)) (
                rw (set_at xs _ 57 1 (byte_of n 48) (omega arith))
                  (rw (set_at xs _ 56 0 (byte_of n 56) (omega arith)) refl)))))))

-- The first bytes of a list, one by one.
pub pick : ℕ → List ℕ → List ℕ
pick zero zs = []
pick (suc n) zs = get_or zs 0 0 ∷ pick n (drop 1 zs)

pub pick_lem : (n : ℕ) (zs : List ℕ) → length zs ≡ n → zs ≡ pick n zs
unfolding pick
pick_lem zero [] h = refl
pick_lem zero (z ∷ zs) h = absurd (omega arith)
pick_lem (suc n) [] h = absurd (omega arith)
pick_lem (suc n) (z ∷ zs) h = ap (λ (l : List ℕ). z ∷ l) (pick_lem n zs (omega arith))

pub put_length-tail :
    (n : ℕ) (xs zs : List ℕ)
    → length xs ≡ 56
    → length zs ≡ 8
    → put_length n (xs ++ zs) ≡ xs ++ length_bytes n
unfolding pick
put_length-tail n xs zs size left =
    ap (λ (l : List ℕ). put_length n (xs ++ l)) (pick_lem 8 zs left)
    ∙ put_length_at n xs _ _ _ _ _ _ _ _ size

-- What the padding of a block that is not full writes before the length.
pub marked_at :
    (b : ℕ) (state xs : List ℕ) (y : ℕ) (ys : List ℕ) (end : ℕ)
    → (if ltb (length xs) 56 then 56 else 64) ≡ end
    → end ≤ length xs + suc (length ys)
    → length xs < end
    → (marked (machine b (state, xs) (y ∷ ys))).m_data
      ≡ (xs ++ 0x80 ∷ replicate (end - (length xs + 1)) 0) ++ drop (end - (length xs + 1)) ys
unfolding marked
marked_at b state xs y ys end h fits room =
    rw (h, set_at xs (y ∷ ys) (length xs) 0 0x80 (omega arith))
      (ap (λ (m : List ℕ). fill_zero (end - (length xs + 1)) (length xs + 1) m)
          (sym (append_assoc xs (0x80 ∷ []) ys))
        ∙ fill_zero_at (end - (length xs + 1)) (length xs + 1) (xs ++ 0x80 ∷ []) ys
            (omega (arith, length-append {0} xs (0x80 ∷ []))) (omega arith)
        ∙ append_assoc xs (0x80 ∷ []) _
        ∙ sym (append_assoc xs (0x80 ∷ replicate (end - (length xs + 1)) 0) _))

module _ (b : ℕ) (state xs : List ℕ) (y : ℕ) (ys : List ℕ)
    (size : length xs + suc (length ys) ≡ 64) where
  abbrev s : Sha256
  s = machine b (state, xs) (y ∷ ys)

  abbrev n : ℕ
  n = (b + length xs * 8) % u64

  pads-fits :
      leb 56 (length xs) ≡ false → (pad s).m_state ≡ (absorb (state, xs) (padding (length xs) n)).0
  pads-fits fits =
      let small : length xs < 56 = ground arith in
      let rest : ℕ = 56 - (length xs + 1) in
      let front : List ℕ = xs ++ 0x80 ∷ replicate rest 0 in
      let passes : zeros (length xs) ≡ rest = omega arith in
      let front-size : length front ≡ 56 =
        omega (arith, length-append {0} xs (0x80 ∷ replicate rest 0), length-replicate rest) in
      pad-fits s fits
      ∙ ap (λ (m : List ℕ). compress state (put_length n m))
          (marked_at b state xs y ys 56 (ground arith) (omega arith) small)
      ∙ ap (compress state) (
          put_length-tail n front (drop rest ys) front-size (omega (arith, length-drop rest ys))
          ∙ append_assoc xs (0x80 ∷ replicate rest 0) (length_bytes n)
          ∙ ap (λ (j : ℕ). xs ++ 0x80 ∷ (replicate j 0 ++ length_bytes n)) (sym passes))
      ∙ ap (λ (p : Partial). p.0)
          (sym (
            absorb-block state xs (replicate (zeros (length xs)) 0 ++ length_bytes n) 0x80 (
              omega (
                arith,
                length-append {0} (replicate (zeros (length xs)) 0) (length_bytes n),
                length-replicate (zeros (length xs)),
              ))))

  pads-spilled :
      leb 56 (length xs) ≡ true → (pad s).m_state ≡ (absorb (state, xs) (padding (length xs) n)).0
  pads-spilled spilled =
      let large : 56 ≤ length xs = ground arith in
      let rest : ℕ = 64 - (length xs + 1) in
      let front : List ℕ = xs ++ 0x80 ∷ replicate rest 0 in
      let passes : zeros (length xs) ≡ rest + 56 = omega arith in
      let front-size : length front ≡ 64 =
        omega (arith, length-append {0} xs (0x80 ∷ replicate rest 0), length-replicate rest) in
      let whole : (marked s).m_data ≡ front =
        marked_at b state xs y ys 64 (ground arith) (omega arith) (omega arith)
        ∙ ap (λ (l : List ℕ). front ++ l) (drop_all rest ys (omega arith))
        ∙ append-nil front in
      let last : List ℕ = replicate 56 0 ++ length_bytes n in
      pad-spilled s spilled
      ∙ ap
          (λ (m : List ℕ). compress (compress state m) (put_length n (replicate 56 0 ++ drop 56 m)))
          whole
      ∙ ap (compress (compress state front)) (
          put_length-tail n (replicate 56 0) (drop 56 front) (length-replicate 56)
            (omega (arith, length-drop 56 front)))
      ∙ sym (
          ap (λ (p : Partial). p.0)
            (ap (λ (l : List ℕ). absorb (state, xs) (0x80 ∷ (l ++ length_bytes n)))
                (replicate-append rest 56 (zeros (length xs)) passes)
              ∙ ap (λ (l : List ℕ). absorb (state, xs) (0x80 ∷ l))
                  (append_assoc (replicate rest 0) (replicate 56 0) (length_bytes n))
              ∙ absorb-append (state, xs) (0x80 ∷ replicate rest 0) last
              ∙ ap (λ (p : Partial). absorb p last)
                  (absorb-block state xs (replicate rest 0) 0x80
                    (omega (arith, length-replicate rest)))
              ∙ absorb-block (compress state front) [] (replicate 55 0 ++ length_bytes n) 0 refl))

  pads : (pad s).m_state ≡ (absorb (state, xs) (padding (length xs) n)).0
  pads = elim (Bool-cases (leb 56 (length xs))) [
    | inl spilled ↦ pads-spilled spilled
    | inr fits ↦ pads-fits fits
  ]

pub pad-Is :
    (s : Sha256) (p : Partial) (b : ℕ) (tail : List ℕ)
    → s ≡ machine b p tail
    → length p.1 + length tail ≡ 64
    → length p.1 < 64
    → (pad s).m_state ≡ (absorb p (padding s.m_blocklen ((s.m_bitlen + s.m_blocklen * 8) % u64))).0
pad-Is s p b [] same size room = absurd (omega arith)
pad-Is s (state, xs) b (y ∷ ys) same size room =
    ap (λ (t : Sha256). (pad t).m_state) same
    ∙ pads b state xs y ys size
    ∙ ap
        (λ (t : Sha256).
          (absorb (state, xs) (padding t.m_blocklen ((t.m_bitlen + t.m_blocklen * 8) % u64))).0)
        (sym same)
