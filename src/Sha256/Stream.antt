-- ===== src/Sha256/Stream.antt =====
-- src/base/utils.cpp: SHA256::SHA256, update, transform, pad, revert and digest.
pub mod Buffer
pub mod Blocks
pub mod Memory
pub mod Absorb
pub mod Simulation
pub mod Padding
pub mod Reference
use xyzwhiteboard.Base.{
  ℕ, zero, suc, ◌+◌, ◌-◌, ◌*◌, ◌/◌, ◌%◌, ◌^◌, List, [], ◌∷◌, ◌++◌, ◌==◌, ltb, leb, if◌then◌else◌,
  set, replicate, drop,
}
use xyzwhiteboard.Sha256.Round.{compress}

-- `m_data` is the whole array of 64 bytes.
pub record Sha256 : Type 0 where
  pub m_data : List ℕ
  pub m_blocklen : ℕ
  pub m_bitlen : ℕ
  pub m_state : List ℕ

abbrev pub u64 : ℕ
u64 = 0x1_0000_0000_0000_0000

abbrev pub initial_state : List ℕ
initial_state =
    0x6a09e667 ∷ 0xbb67ae85 ∷ 0x3c6ef372 ∷ 0xa54ff53a ∷ 0x510e527f ∷ 0x9b05688c ∷ 0x1f83d9ab
    ∷ 0x5be0cd19 ∷ []

-- The constructor leaves m_data as the memory was.
abbrev pub construct : List ℕ → Sha256
construct memory = record { m_data = memory; m_blocklen = 0; m_bitlen = 0; m_state = initial_state }

unfoldable pub transform : Sha256 → Sha256
unfolding compress
transform s = record s { m_state = compress s.m_state s.m_data }

-- One pass of the loop of `update`.
unfoldable pub put_byte : Sha256 → ℕ → Sha256
unfolding transform
put_byte s byte =
    let s' = record s { m_data = set s.m_data s.m_blocklen byte; m_blocklen = s.m_blocklen + 1 } in
    if s'.m_blocklen == 64
    then record (transform s') { m_bitlen = (s'.m_bitlen + 512) % u64; m_blocklen = 0 }
    else s'

unfoldable pub update : Sha256 → List ℕ → Sha256
unfolding put_byte
update s [] = s
update s (byte ∷ bytes) = update (put_byte s byte) bytes

-- `while (i < end) m_data[i++] = 0x00`, by the passes left.
pub fill_zero : ℕ → ℕ → List ℕ → List ℕ
fill_zero zero i m = m
fill_zero (suc passes) i m = fill_zero passes (i + 1) (set m i 0)

abbrev pub byte_of : ℕ → ℕ → ℕ
byte_of n shift = n / 2 ^ shift % 256

-- m_data[63] = m_bitlen; m_data[62] = m_bitlen >> 8; ...
pub put_length : ℕ → List ℕ → List ℕ
put_length n m =
    set
      (set
        (set
          (set
            (set (set (set (set m 63 (byte_of n 0)) 62 (byte_of n 8)) 61 (byte_of n 16)) 60
              (byte_of n 24))
            59 (byte_of n 32))
          58 (byte_of n 40))
        57 (byte_of n 48))
      56 (byte_of n 56)

-- The filled block, and the block before it that is transformed if the length does not fit.
pub marked : Sha256 → Sha256
unfolding fill_zero
marked s = record s { m_data = fill_zero (end - (i + 1)) (i + 1) (set s.m_data i 0x80) }
  where
    i : ℕ
    i = s.m_blocklen

    end : ℕ
    end = if ltb i 56 then 56 else 64

spill : Sha256 → Sha256
unfolding transform
spill s =
    if leb 56 s.m_blocklen
    then (let t = transform s in record t { m_data = replicate 56 0 ++ drop 56 t.m_data })
    else s

unfoldable pub pad : Sha256 → Sha256
unfolding marked spill put_length transform
pad s =
    let t = spill (marked s) in
    let bitlen = (t.m_bitlen + t.m_blocklen * 8) % u64 in
    transform (record t { m_bitlen = bitlen; m_data = put_length bitlen t.m_data })

-- hash[i + j * 4] = (m_state[j] >> (24 - i * 8)) & 0xff, word by word.
pub revert : List ℕ → List ℕ
revert [] = []
revert (w ∷ ws) = byte_of w 24 ∷ byte_of w 16 ∷ byte_of w 8 ∷ byte_of w 0 ∷ revert ws

unfoldable pub digest : Sha256 → List ℕ
unfolding pad revert
digest s = revert (pad s).m_state
