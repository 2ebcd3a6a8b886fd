-- ===== src/Sha256/Stream/Simulation.antt =====
-- `update` of src/base/utils.cpp does to an object what Absorb does to a state and a block.
use mathlib.Core.List.{append_assoc}
use xyzwhiteboard.Base.{
  ℕ, zero, suc, ◌+◌, ◌%◌, ◌<◌, true, false, List, [], ◌∷◌, ◌++◌, ◌≡◌, ◌≢◌, refl, arith, ◌==◌, ◌∙◌,
  sym, ap, length, length-append, set,
}
use xyzwhiteboard.Sha256.Round.{compress}
use xyzwhiteboard.Sha256.Stream.{Sha256, u64, transform, put_byte, update}
use xyzwhiteboard.Sha256.Stream.Absorb.{Partial, absorb_byte, absorb, ==_of_ne}

pub set_at :
    (xs ys : List ℕ) (i k v : ℕ) → i ≡ length xs + k → set (xs ++ ys) i v ≡ xs ++ set ys k v
set_at [] ys i k v h = let same : i ≡ k = omega arith in ap (λ (j : ℕ). set ys j v) same
set_at (x ∷ xs) ys zero k v h = absurd (omega arith)
set_at (x ∷ xs) ys (suc i) k v h = ap (λ (l : List ℕ). x ∷ l) (set_at xs ys i k v (omega arith))

-- The object with these bytes in the block, and others behind them.
abbrev pub machine : ℕ → Partial → List ℕ → Sha256
machine bitlen (state, xs) tail = record {
  m_data = xs ++ tail;
  m_blocklen = length xs;
  m_bitlen = bitlen;
  m_state = state;
}

-- An object that holds a state and the bytes of a block.
pub record Is (s : Sha256) (p : Partial) : Type 0 where
  pub bitlen : ℕ
  pub tail : List ℕ
  pub same : s ≡ machine bitlen p tail
  pub size : length p.1 + length tail ≡ 64
  pub room : length p.1 < 64

pub put_byte_full :
    (s : Sha256) (byte : ℕ) (d : List ℕ)
    → (s.m_blocklen + 1 == 64) ≡ true
    → set s.m_data s.m_blocklen byte ≡ d
    → put_byte s byte ≡ record {
      m_data = d;
      m_blocklen = 0;
      m_bitlen = (s.m_bitlen + 512) % u64;
      m_state = compress s.m_state d;
    }
unfolding put_byte transform
put_byte_full s byte d full same = rw (full, same) refl

pub put_byte_free :
    (s : Sha256) (byte n : ℕ) (d : List ℕ)
    → (s.m_blocklen + 1 == 64) ≡ false
    → set s.m_data s.m_blocklen byte ≡ d
    → s.m_blocklen + 1 ≡ n
    → put_byte s byte
      ≡ record { m_data = d; m_blocklen = n; m_bitlen = s.m_bitlen; m_state = s.m_state }
unfolding put_byte transform
put_byte_free s byte n d free same next = rw (free, same, next) refl

pub absorb_byte_full :
    (state xs : List ℕ) (byte : ℕ)
    → length (xs ++ byte ∷ []) ≡ 64
    → absorb_byte (state, xs) byte ≡ (compress state (xs ++ byte ∷ []), [])
unfolding absorb_byte
absorb_byte_full state xs byte full = rw full refl

pub absorb_byte_free :
    (state xs : List ℕ) (byte : ℕ)
    → length (xs ++ byte ∷ []) ≢ 64
    → absorb_byte (state, xs) byte ≡ (state, xs ++ byte ∷ [])
unfolding absorb_byte
absorb_byte_free state xs byte free = rw (==_of_ne (length (xs ++ byte ∷ [])) 64 free) refl

pub put_byte-Is :
    (b : ℕ) (state xs : List ℕ) (y : ℕ) (ys : List ℕ) (byte : ℕ)
    → length xs + suc (length ys) ≡ 64
    → Is (put_byte (machine b (state, xs) (y ∷ ys)) byte) (absorb_byte (state, xs) byte)
put_byte-Is b state xs y [] byte size =
    let more : length (xs ++ byte ∷ []) ≡ length xs + 1 = length-append {0} xs (byte ∷ []) in
    rw (absorb_byte_full state xs byte (omega arith)) (record {
      bitlen = (b + 512) % u64;
      tail = xs ++ byte ∷ [];
      same =
          put_byte_full (machine b (state, xs) (y ∷ [])) byte (xs ++ byte ∷ [])
            (rw (let full : length xs + 1 ≡ 64 = omega arith in full) refl)
            (set_at xs (y ∷ []) (length xs) 0 byte (omega arith));
      size = omega arith;
      room = omega arith;
    })
put_byte-Is b state xs y (z ∷ zs) byte size =
    let more : length (xs ++ byte ∷ []) ≡ length xs + 1 = length-append {0} xs (byte ∷ []) in
    rw (absorb_byte_free state xs byte (omega arith)) (record {
      bitlen = b;
      tail = z ∷ zs;
      same =
          put_byte_free (machine b (state, xs) (y ∷ z ∷ zs)) byte (length (xs ++ byte ∷ []))
            ((xs ++ byte ∷ []) ++ z ∷ zs) (==_of_ne (length xs + 1) 64 (omega arith))
            (set_at xs (y ∷ z ∷ zs) (length xs) 0 byte (omega arith)
              ∙ sym (append_assoc xs (byte ∷ []) (z ∷ zs)))
            (sym more);
      size = omega arith;
      room = omega arith;
    })

pub next-Is :
    (s : Sha256) (p : Partial) (b : ℕ) (tail : List ℕ) (byte : ℕ)
    → s ≡ machine b p tail
    → length p.1 + length tail ≡ 64
    → length p.1 < 64
    → Is (put_byte s byte) (absorb_byte p byte)
next-Is s p b [] byte same size room = absurd (omega arith)
next-Is s (state, xs) b (y ∷ ys) byte same size room =
    rw same (put_byte-Is b state xs y ys byte size)

pub update-Is :
    (bytes : List ℕ) (s : Sha256) (p : Partial) → Is s p → Is (update s bytes) (absorb p bytes)
unfolding update absorb
update-Is [] s p is = is
update-Is (byte ∷ bytes) s p is =
    update-Is bytes (put_byte s byte) (absorb_byte p byte)
      (next-Is s p is.bitlen is.tail byte is.same is.size is.room)
