-- ===== src/Sha256/Round/Sizes.antt =====
-- The transform of src/base/utils.cpp keeps the number of words in the state.
use xyzwhiteboard.Base.{ℕ, List, [], ◌∷◌, ◌≡◌, refl, arith, length, ◌∙◌}
use xyzwhiteboard.Sha256.Round.{K, words, extend, step, rounds, add_words, compress}

length-step : (m_i k_i : ℕ) (state : List ℕ) → length (step m_i k_i state) ≡ length state
unfolding step
length-step m_i k_i [] = refl
length-step m_i k_i (a ∷ []) = refl
length-step m_i k_i (a ∷ b ∷ []) = refl
length-step m_i k_i (a ∷ b ∷ c ∷ []) = refl
length-step m_i k_i (a ∷ b ∷ c ∷ d ∷ []) = refl
length-step m_i k_i (a ∷ b ∷ c ∷ d ∷ e ∷ []) = refl
length-step m_i k_i (a ∷ b ∷ c ∷ d ∷ e ∷ f ∷ []) = refl
length-step m_i k_i (a ∷ b ∷ c ∷ d ∷ e ∷ f ∷ g ∷ []) = refl
length-step m_i k_i (a ∷ b ∷ c ∷ d ∷ e ∷ f ∷ g ∷ h ∷ []) = refl
length-step m_i k_i (a ∷ b ∷ c ∷ d ∷ e ∷ f ∷ g ∷ h ∷ i ∷ rest) = refl

length-rounds : (m ks state : List ℕ) → length (rounds m ks state) ≡ length state
unfolding rounds
length-rounds [] ks state = refl
length-rounds (m_i ∷ m) [] state = refl
length-rounds (m_i ∷ m) (k_i ∷ ks) state =
    length-rounds m ks (step m_i k_i state) ∙ length-step m_i k_i state

length-add_words : (xs ys : List ℕ) → length xs ≡ length ys → length (add_words xs ys) ≡ length xs
unfolding add_words
length-add_words [] ys h = refl
length-add_words (x ∷ xs) [] h = omega arith
length-add_words (x ∷ xs) (y ∷ ys) h = omega (arith, length-add_words xs ys (omega arith))

pub length-compress : (state block : List ℕ) → length (compress state block) ≡ length state
unfolding compress
length-compress state block =
    length-add_words state _ (omega (arith, length-rounds (extend 48 16 (words block)) K state))
