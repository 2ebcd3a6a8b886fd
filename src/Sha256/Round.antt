-- ===== src/Sha256/Round.antt =====
-- src/base/utils.cpp: the bit functions of SHA256 and the arithmetic of `transform`, from the state of
-- eight words and the block of 64 bytes to the new state.
use Prim.Native.Nat.{bit_and, bit_or, bit_xor}
pub mod Sizes
use xyzwhiteboard.Base.{ℕ, zero, suc, ◌+◌, ◌-◌, ◌*◌, ◌/◌, ◌%◌, ◌^◌, List, [], ◌∷◌, ◌++◌, get_or}

abbrev pub u32 : ℕ
u32 = 0x1_0000_0000

add32 : ℕ → ℕ → ℕ
add32 a b = (a + b) % u32

-- (x >> n) | (x << (32 - n))
rotr : ℕ → ℕ → ℕ
rotr x n = bit_or (x / 2 ^ n) (x * 2 ^ (32 - n) % u32)

-- (e & f) ^ (~e & g)
choose : ℕ → ℕ → ℕ → ℕ
choose e f g = bit_xor (bit_and e f) (bit_and (u32 - 1 - e) g)

-- (a & (b | c)) | (b & c)
majority : ℕ → ℕ → ℕ → ℕ
majority a b c = bit_or (bit_and a (bit_or b c)) (bit_and b c)

sig0 : ℕ → ℕ
unfolding rotr
sig0 x = bit_xor (bit_xor (rotr x 7) (rotr x 18)) (x / 2 ^ 3)

sig1 : ℕ → ℕ
unfolding rotr
sig1 x = bit_xor (bit_xor (rotr x 17) (rotr x 19)) (x / 2 ^ 10)

abbrev pub K : List ℕ
K =
    0x428a2f98 ∷ 0x71374491 ∷ 0xb5c0fbcf ∷ 0xe9b5dba5 ∷ 0x3956c25b ∷ 0x59f111f1 ∷ 0x923f82a4
    ∷ 0xab1c5ed5 ∷ 0xd807aa98 ∷ 0x12835b01 ∷ 0x243185be ∷ 0x550c7dc3 ∷ 0x72be5d74 ∷ 0x80deb1fe
    ∷ 0x9bdc06a7 ∷ 0xc19bf174 ∷ 0xe49b69c1 ∷ 0xefbe4786 ∷ 0x0fc19dc6 ∷ 0x240ca1cc ∷ 0x2de92c6f
    ∷ 0x4a7484aa ∷ 0x5cb0a9dc ∷ 0x76f988da ∷ 0x983e5152 ∷ 0xa831c66d ∷ 0xb00327c8 ∷ 0xbf597fc7
    ∷ 0xc6e00bf3 ∷ 0xd5a79147 ∷ 0x06ca6351 ∷ 0x14292967 ∷ 0x27b70a85 ∷ 0x2e1b2138 ∷ 0x4d2c6dfc
    ∷ 0x53380d13 ∷ 0x650a7354 ∷ 0x766a0abb ∷ 0x81c2c92e ∷ 0x92722c85 ∷ 0xa2bfe8a1 ∷ 0xa81a664b
    ∷ 0xc24b8b70 ∷ 0xc76c51a3 ∷ 0xd192e819 ∷ 0xd6990624 ∷ 0xf40e3585 ∷ 0x106aa070 ∷ 0x19a4c116
    ∷ 0x1e376c08 ∷ 0x2748774c ∷ 0x34b0bcb5 ∷ 0x391c0cb3 ∷ 0x4ed8aa4a ∷ 0x5b9cca4f ∷ 0x682e6ff3
    ∷ 0x748f82ee ∷ 0x78a5636f ∷ 0x84c87814 ∷ 0x8cc70208 ∷ 0x90befffa ∷ 0xa4506ceb ∷ 0xbef9a3f7
    ∷ 0xc67178f2 ∷ []

-- The first loop: the block's bytes as big-endian words.
words : List ℕ → List ℕ
words (a ∷ b ∷ c ∷ d ∷ rest) =
    bit_or (bit_or (bit_or (a * 2 ^ 24 % u32) (b * 2 ^ 16 % u32)) (c * 2 ^ 8 % u32)) d ∷ words rest
words _ = []

-- The second loop, from m[k] on, with the rounds left.
extend : ℕ → ℕ → List ℕ → List ℕ
unfolding add32 sig0 sig1
extend zero k m = m
extend (suc rounds) k m = extend rounds (k + 1) (m ++ next ∷ [])
  where
    next : ℕ
    next =
        add32
          (add32 (add32 (sig1 (get_or m (k - 2) 0)) (get_or m (k - 7) 0))
            (sig0 (get_or m (k - 15) 0)))
          (get_or m (k - 16) 0)

-- One pass of the main loop's body, with m[i] and K[i].
step : ℕ → ℕ → List ℕ → List ℕ
unfolding add32 rotr choose majority
step m_i k_i (a ∷ b ∷ c ∷ d ∷ e ∷ f ∷ g ∷ h ∷ []) = newA ∷ a ∷ b ∷ c ∷ newE ∷ e ∷ f ∷ g ∷ []
  where
    xorA : ℕ
    xorA = bit_xor (bit_xor (rotr a 2) (rotr a 13)) (rotr a 22)

    xorE : ℕ
    xorE = bit_xor (bit_xor (rotr e 6) (rotr e 11)) (rotr e 25)

    sum : ℕ
    sum = add32 (add32 (add32 (add32 m_i k_i) h) (choose e f g)) xorE

    newA : ℕ
    newA = add32 (add32 xorA (majority a b c)) sum

    newE : ℕ
    newE = add32 d sum
step m_i k_i state = state

rounds : List ℕ → List ℕ → List ℕ → List ℕ
unfolding step
rounds (m_i ∷ m) (k_i ∷ ks) state = rounds m ks (step m_i k_i state)
rounds _ _ state = state

-- The last loop: m_state[i] += state[i].
add_words : List ℕ → List ℕ → List ℕ
unfolding add32
add_words (x ∷ xs) (y ∷ ys) = add32 x y ∷ add_words xs ys
add_words _ _ = []

-- What `transform` makes of m_state, given m_data.
unfoldable pub compress : List ℕ → List ℕ → List ℕ
unfolding words extend rounds add_words
compress state block = add_words state (rounds (extend 48 16 (words block)) K state)
