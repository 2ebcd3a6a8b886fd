-- ===== src/Sha256/Stream/Memory.antt =====
-- The digest of src/base/utils.cpp does not depend on the memory that an object is made in.
use xyzwhiteboard.Base.{
  ℕ, ◌+◌, ◌-◌, ◌*◌, ◌%◌, ◌<◌, ◌≤◌, true, false, List, [], ◌∷◌, ◌++◌, ◌≡◌, refl, arith, ◌==◌,
  if◌then◌else◌, leb, ltb, length, set, drop, replicate, Bool-cases, inl, inr, ==_iff, ap, sym, ◌∙◌,
}
use xyzwhiteboard.Sha256.Round.{compress}
use xyzwhiteboard.Sha256.Stream.Buffer.{BufferInv, length-set, put_byte-BufferInv}
use xyzwhiteboard.Sha256.Stream.{
  Sha256, u64, construct, transform, put_byte, update, put_length, marked, spill, pad, revert,
  digest,
}
use xyzwhiteboard.Sha256.Stream.Blocks.{
  Agree, equal, Agree-set, length-fill_zero, Agree-fill_zero, put_length-same,
}

-- The same object with another buffer.
abbrev over : Sha256 → List ℕ → Sha256
over s ys = record s { m_data = ys }

abbrev end : Sha256 → ℕ
end s = if ltb s.m_blocklen 56 then 56 else 64

module _ (s : Sha256) (ys : List ℕ) (inv : BufferInv s) (size : length ys ≡ 64)
    (a : Agree s.m_blocklen s.m_data ys) where
  marked-Agree :
      (n : ℕ)
      → end s ≡ n
      → n ≤ 64
      → s.m_blocklen < n
      → Agree n (marked s).m_data (marked (over s ys)).m_data
  unfolding marked
  marked-Agree n e fits room =
      let xs-size = length-set s.m_data s.m_blocklen 0x80 in
      let ys-size = length-set ys s.m_blocklen 0x80 in
      let left = inv.data_size in
      let bound = inv.room in
      let one = Agree-set s.m_blocklen s.m_data ys 0x80 (omega arith) (omega arith) a in
      let all =
        Agree-fill_zero (n - (s.m_blocklen + 1)) (s.m_blocklen + 1) (set s.m_data s.m_blocklen 0x80)
          (set ys s.m_blocklen 0x80) (omega arith) (omega arith) (λ j l. one j (omega arith)) in
      rw e (λ j l. all j (omega arith))

  marked-size : (length (marked s).m_data ≡ 64) × (length (marked (over s ys)).m_data ≡ 64)
  unfolding marked
  marked-size =
      (rw (length-fill_zero, length-set) inv.data_size, rw (length-fill_zero, length-set) size)

  marked-full : end s ≡ 64 → (marked (over s ys)).m_data ≡ (marked s).m_data
  marked-full e =
      let bound = inv.room in
      let sizes = marked-size in
      let all = marked-Agree 64 e (omega arith) bound in
      sym (equal _ _ (sizes.0 ∙ sym sizes.1) (λ j l. all j (rw (← sizes.0) l)))

-- The padding starts with the end of the block where the length fits, and with the full block and
-- an empty one where it does not.
pub pad-fits :
    (s : Sha256)
    → leb 56 s.m_blocklen ≡ false
    → (pad s).m_state
      ≡ compress s.m_state (put_length ((s.m_bitlen + s.m_blocklen * 8) % u64) (marked s).m_data)
unfolding pad spill marked transform
pad-fits s h = rw h refl

pub pad-spilled :
    (s : Sha256)
    → leb 56 s.m_blocklen ≡ true
    → (pad s).m_state
      ≡ compress (compress s.m_state (marked s).m_data) (
          put_length
            ((s.m_bitlen + s.m_blocklen * 8) % u64)
            (replicate 56 0 ++ drop 56 (marked s).m_data))
unfolding pad spill marked transform
pad-spilled s h = rw h refl

end-fits : (s : Sha256) → leb 56 s.m_blocklen ≡ false → (end s ≡ 56) × (s.m_blocklen < 56)
end-fits s h = (ground arith, ground arith)

end-spilled : (s : Sha256) → leb 56 s.m_blocklen ≡ true → end s ≡ 64
end-spilled s h = ground arith

pad-over :
    (s : Sha256) (ys : List ℕ)
    → BufferInv s
    → length ys ≡ 64
    → Agree s.m_blocklen s.m_data ys
    → (pad (over s ys)).m_state ≡ (pad s).m_state
pad-over s ys inv size a =
    let n : ℕ = (s.m_bitlen + s.m_blocklen * 8) % u64 in
    elim (Bool-cases (leb 56 s.m_blocklen)) [
      | inl spilled ↦
          pad-spilled (over s ys) spilled
          ∙ ap
              (λ (m : List ℕ).
                compress (compress s.m_state m) (put_length n (replicate 56 0 ++ drop 56 m)))
              (marked-full s ys inv size a (end-spilled s spilled))
          ∙ sym (pad-spilled s spilled)
      | inr fits ↦
          let at_end = end-fits s fits in
          let sizes = marked-size s ys inv size a in
          let same = marked-Agree s ys inv size a 56 at_end.0 (omega arith) at_end.1 in
          pad-fits (over s ys) fits
          ∙ ap (λ (m : List ℕ). compress s.m_state m)
              (sym (
                put_length-same n (marked s).m_data (marked (over s ys)).m_data sizes.0 sizes.1
                  same))
          ∙ sym (pad-fits s fits)
    ]

put_byte-full :
    (s : Sha256) (ys : List ℕ) (byte : ℕ)
    → (s.m_blocklen + 1 == 64) ≡ true
    → set ys s.m_blocklen byte ≡ set s.m_data s.m_blocklen byte
    → put_byte (over s ys) byte ≡ put_byte s byte
unfolding put_byte transform
put_byte-full s ys byte full same = rw (full, same) refl

put_byte-free :
    (s : Sha256) (ys : List ℕ) (byte : ℕ)
    → (s.m_blocklen + 1 == 64) ≡ false
    → (put_byte (over s ys) byte ≡ over (put_byte s byte) (set ys s.m_blocklen byte))
      × ((put_byte s byte).m_blocklen ≡ s.m_blocklen + 1)
      × ((put_byte s byte).m_data ≡ set s.m_data s.m_blocklen byte)
unfolding put_byte transform
put_byte-free s ys byte free = (rw free refl, rw free refl, rw free refl)

digest-update-over :
    (bytes : List ℕ) (s : Sha256) (ys : List ℕ)
    → BufferInv s
    → length ys ≡ 64
    → Agree s.m_blocklen s.m_data ys
    → digest (update (over s ys) bytes) ≡ digest (update s bytes)
unfolding digest update
digest-update-over [] s ys inv size a = ap revert (pad-over s ys inv size a)
digest-update-over (byte ∷ bytes) s ys inv size a =
    let left = inv.data_size in
    let bound = inv.room in
    let xs' = set s.m_data s.m_blocklen byte in
    let ys' = set ys s.m_blocklen byte in
    let xs-size = length-set s.m_data s.m_blocklen byte in
    let ys-size = length-set ys s.m_blocklen byte in
    let agree = Agree-set s.m_blocklen s.m_data ys byte (omega arith) (omega arith) a in
    elim (Bool-cases (s.m_blocklen + 1 == 64)) [
      | inl full ↦
          let e = (==_iff (s.m_blocklen + 1) 64).0 full in
          let same = equal xs' ys' (omega arith) (λ i l. agree i (omega arith)) in
          ap (λ (t : Sha256). digest (update t bytes)) (put_byte-full s ys byte full (sym same))
      | inr free ↦
          let step = put_byte-free s ys byte free in
          ap (λ (t : Sha256). digest (update t bytes)) step.0
          ∙ digest-update-over bytes (put_byte s byte) ys' (put_byte-BufferInv s byte inv)
              (ys-size ∙ size) (rw (step.1, step.2) (λ i l. agree i (omega arith)))
    ]

-- What the memory held in which an object is made makes no difference to any digest.
pub digest-construct :
    (memory other bytes : List ℕ)
    → length memory ≡ 64
    → length other ≡ 64
    → digest (update (construct memory) bytes) ≡ digest (update (construct other) bytes)
digest-construct memory other bytes h k = sym (
    digest-update-over bytes (construct memory) other
      (record { data_size = h; state_size = refl; room = omega arith }) k (λ i l. omega arith))
