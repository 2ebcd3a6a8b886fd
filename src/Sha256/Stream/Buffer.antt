-- ===== src/Sha256/Stream/Buffer.antt =====
-- The buffer and the counters of the class SHA256 in src/base/utils.cpp under `update`.
use xyzwhiteboard.Base.{
  ℕ, zero, suc, ◌+◌, ◌*◌, ◌%◌, ◌<◌, false, List, [], ◌∷◌, ◌++◌, ◌≡◌, ◌≢◌, refl, arith, ◌==◌, leb,
  length, set, Bool-cases, inl, inr, ==_iff, ap, ◌∙◌,
}
use xyzwhiteboard.Sha256.Round.Sizes.{length-compress}
use xyzwhiteboard.Sha256.Stream.{
  Sha256, u64, construct, transform, put_byte, update, marked, spill, pad, revert, digest,
}

-- The arrays keep their sizes and the buffer is never full between two bytes.
pub record BufferInv (s : Sha256) : Type 0 where
  pub data_size : length s.m_data ≡ 64
  pub state_size : length s.m_state ≡ 8
  pub room : s.m_blocklen < 64

pub length-set : (xs : List ℕ) (i v : ℕ) → length (set xs i v) ≡ length xs
length-set [] i v = refl
length-set (x ∷ xs) zero v = refl
length-set (x ∷ xs) (suc i) v = ap suc (length-set xs i v)

pub put_byte-BufferInv : (s : Sha256) (byte : ℕ) → BufferInv s → BufferInv (put_byte s byte)
unfolding put_byte transform
put_byte-BufferInv s byte inv = elim (Bool-cases (s.m_blocklen + 1 == 64)) [
  | inl full ↦ rw full (record {
    data_size = length-set s.m_data s.m_blocklen byte ∙ inv.data_size;
    state_size = length-compress s.m_state (set s.m_data s.m_blocklen byte) ∙ inv.state_size;
    room = omega arith;
  })
  | inr free ↦ rw free (record {
    data_size = length-set s.m_data s.m_blocklen byte ∙ inv.data_size;
    state_size = inv.state_size;
    room = let bound = inv.room in ground arith;
  })
]

-- From a state with arrays of their sizes and room in the buffer, any bytes lead to such a state:
-- no write of `update` is out of bounds.
pub update-BufferInv : (s : Sha256) (bytes : List ℕ) → BufferInv s → BufferInv (update s bytes)
unfolding update
update-BufferInv s [] inv = inv
update-BufferInv s (byte ∷ bytes) inv =
    update-BufferInv (put_byte s byte) bytes (put_byte-BufferInv s byte inv)

-- Hashing a text in two pieces leaves the same object as hashing it at once.
pub update-append : (s : Sha256) (xs ys : List ℕ) → update s (xs ++ ys) ≡ update (update s xs) ys
unfolding update
update-append s [] ys = refl
update-append s (x ∷ xs) ys = update-append (put_byte s x) xs ys

different : (a b : ℕ) → (a == b) ≡ false → a ≢ b
different a b h = ground arith

-- The bits that the two counters stand for, up to the wrap-around of 64 bits.
abbrev pub bits : Sha256 → ℕ
bits s = (s.m_bitlen + 8 * s.m_blocklen) % u64

put_byte-blocklen :
    (s : Sha256) (byte : ℕ)
    → s.m_blocklen < 64
    → (put_byte s byte).m_blocklen ≡ (s.m_blocklen + 1) % 64
unfolding put_byte transform
put_byte-blocklen s byte room = elim (Bool-cases (s.m_blocklen + 1 == 64)) [
  | inl full ↦ let e = (==_iff (s.m_blocklen + 1) 64).0 full in rw full (omega arith)
  | inr free ↦ let e = different (s.m_blocklen + 1) 64 free in rw free (omega arith)
]

put_byte-bits :
    (s : Sha256) (byte : ℕ) → bits (put_byte s byte) ≡ (s.m_bitlen + 8 * s.m_blocklen + 8) % u64
unfolding put_byte transform
put_byte-bits s byte = elim (Bool-cases (s.m_blocklen + 1 == 64)) [
  | inl full ↦ let e = (==_iff (s.m_blocklen + 1) 64).0 full in rw full (omega arith)
  | inr free ↦ rw free (omega arith)
]

-- From a state with room in the buffer, after any bytes, m_blocklen is the remainder by 64 of what
-- it was and the number of bytes, and the two counters together have counted the bits of these
-- bytes, up to the wrap-around of 64 bits.
pub update-counts :
    (s : Sha256) (bytes : List ℕ)
    → s.m_blocklen < 64
    → ((update s bytes).m_blocklen ≡ (s.m_blocklen + length bytes) % 64)
      × (bits (update s bytes) ≡ (s.m_bitlen + 8 * s.m_blocklen + 8 * length bytes) % u64)
unfolding update
update-counts s [] room = (omega arith, omega arith)
update-counts s (byte ∷ bytes) room =
    let at_byte = put_byte-blocklen s byte room in
    let bits_byte = put_byte-bits s byte in
    let (blocklen, total) = update-counts (put_byte s byte) bytes (omega arith) in
    (omega arith, omega arith)

length-revert : (ws : List ℕ) → length (revert ws) ≡ 4 * length ws
unfolding revert
length-revert [] = refl
length-revert (w ∷ ws) = omega (arith, length-revert ws)

length-pad : (s : Sha256) → length (pad s).m_state ≡ length s.m_state
unfolding pad transform spill marked
length-pad s = elim (Bool-cases (leb 56 s.m_blocklen)) [
  | inl spilled ↦ rw spilled (rw (length-compress, length-compress) refl)
  | inr fits ↦ rw fits (rw length-compress refl)
]

-- The digest of any bytes, hashed by a fresh object in any memory of 64 bytes, has 32 bytes.
pub length-digest :
    (memory bytes : List ℕ)
    → length memory ≡ 64
    → length (digest (update (construct memory) bytes)) ≡ 32
unfolding digest
length-digest memory bytes size =
    let fresh : BufferInv (construct memory) = record {
      data_size = size;
      state_size = refl;
      room = omega arith;
    } in
    let hashed = (update-BufferInv (construct memory) bytes fresh).state_size in
    omega (
      arith,
      length-revert (pad (update (construct memory) bytes)).m_state,
      length-pad (update (construct memory) bytes),
    )
