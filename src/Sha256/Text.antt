-- ===== src/Sha256/Text.antt =====
-- src/base/utils.cpp: SHA256::toString, `update` on a std::string, and the hash of a text.
use Prim.Native.Char.{code}
use xyzwhiteboard.Base.{ℕ, ◌/◌, ◌%◌, String, List, [], ◌∷◌, concat, get_or, replicate}
use xyzwhiteboard.Sha256.Stream.{Sha256, construct, update, digest}

-- The bytes of a std::string: a character here stands for a byte, and its code is the byte.
abbrev pub bytes : String → List ℕ
bytes String.[] = []
bytes (String.◌∷◌ c s) = code c ∷ bytes s

unfoldable pub update_string : Sha256 → String → Sha256
unfolding update
update_string s text = update s (bytes text)

abbrev hex_digits : List String
hex_digits =
    "0" ∷ "1" ∷ "2" ∷ "3" ∷ "4" ∷ "5" ∷ "6" ∷ "7" ∷ "8" ∷ "9" ∷ "a" ∷ "b" ∷ "c" ∷ "d" ∷ "e" ∷ "f"
    ∷ []

-- Two hexadecimal digits a byte, the first filled with '0'.
unfoldable pub to_string : List ℕ → String
to_string [] = ""
to_string (b ∷ bs) =
    concat (get_or hex_digits (b / 16) "") (concat (get_or hex_digits (b % 16) "") (to_string bs))

-- `SHA256 sha; sha.update(text); SHA256::toString(sha.digest())`. The memory that the object is
-- constructed in is taken as zero here.
unfoldable pub hash_string : String → String
unfolding update_string digest to_string
hash_string text = to_string (digest (update_string (construct (replicate 64 0)) text))
