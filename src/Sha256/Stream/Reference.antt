-- ===== src/Sha256/Stream/Reference.antt =====
-- The digest of src/base/utils.cpp against the hash of the whole padded message, as FIPS 180-4 defines
-- it from the compression function.
use xyzwhiteboard.Base.{
  ℕ, ◌+◌, ◌*◌, ◌/◌, ◌%◌, ◌^◌, ◌<◌, List, [], ◌∷◌, ◌++◌, ◌≡◌, refl, arith, ◌∙◌, sym, ap, length,
  length-append, replicate,
}
use xyzwhiteboard.Sha256.Stream.{Sha256, u64, initial_state, construct, update, revert, digest}
use xyzwhiteboard.Sha256.Stream.Absorb.{
  length_bytes, zeros, padded, hash_blocks, Partial, absorb, absorb-append, length-replicate,
  absorb-blocks, padding,
}
use xyzwhiteboard.Sha256.Stream.Simulation.{update-Is}
use xyzwhiteboard.Sha256.Stream.Padding.{pad-Is}
use xyzwhiteboard.Sha256.Stream.Buffer.{update-counts}

abbrev pub reference : List ℕ → List ℕ
unfolding revert
reference bytes =
    let message = padded bytes in revert (hash_blocks (length message / 64) initial_state message)

pub padded-size : (bytes : List ℕ) → length (padded bytes) ≡ length (padded bytes) / 64 * 64
padded-size bytes =
    let zs : List ℕ = replicate (zeros (length bytes)) 0 in
    let ending : length (zs ++ length_bytes (8 * length bytes)) ≡ zeros (length bytes) + 8 =
      length-append {0} zs (length_bytes (8 * length bytes))
      ∙ ap (λ (k : ℕ). k + 8) (length-replicate (zeros (length bytes))) in
    omega (arith, length-append {0} bytes (0x80 ∷ (zs ++ length_bytes (8 * length bytes))))

-- The padding that the object's counters give is that of the whole message.
pub same_padding :
    (memory bytes : List ℕ)
    → length bytes < 2 ^ 61
    → (let s = update (construct memory) bytes in
        padding s.m_blocklen ((s.m_bitlen + s.m_blocklen * 8) % u64)
        ≡ padding (length bytes) (8 * length bytes))
same_padding memory bytes short =
    let s : Sha256 = update (construct memory) bytes in
    let (blocklen, total) = update-counts (construct memory) bytes (omega arith) in
    let fills : zeros s.m_blocklen ≡ zeros (length bytes) = omega arith in
    let counted : (s.m_bitlen + s.m_blocklen * 8) % u64 ≡ 8 * length bytes = omega arith in
    ap (λ (k : ℕ). 0x80 ∷ (replicate k 0 ++ length_bytes ((s.m_bitlen + s.m_blocklen * 8) % u64)))
      fills
    ∙ ap (λ (k : ℕ). 0x80 ∷ (replicate (zeros (length bytes)) 0 ++ length_bytes k)) counted

-- A message of less than 2^61 bytes, hashed by a fresh object in any memory of 64 bytes, has the
-- digest that FIPS 180-4 defines from the compression function: the hash of the message, padded by the
-- bit 1, by zeros and by its length in bits to whole blocks.
pub digest-reference :
    (memory bytes : List ℕ)
    → length memory ≡ 64
    → length bytes < 2 ^ 61
    → digest (update (construct memory) bytes) ≡ reference bytes
unfolding digest
digest-reference memory bytes size short =
    let start : Partial = (initial_state, []) in
    let is =
      update-Is bytes (construct memory) start (record {
        bitlen = 0;
        tail = memory;
        same = refl;
        size = omega arith;
        room = omega arith;
      }) in
    ap revert (
      pad-Is (update (construct memory) bytes) (absorb start bytes) is.bitlen is.tail is.same
        is.size is.room
      ∙ ap (λ (l : List ℕ). (absorb (absorb start bytes) l).0) (same_padding memory bytes short)
      ∙ ap (λ (p : Partial). p.0)
          (sym (absorb-append start bytes (padding (length bytes) (8 * length bytes)))
            ∙ absorb-blocks (length (padded bytes) / 64) initial_state (padded bytes)
                (padded-size bytes)))
