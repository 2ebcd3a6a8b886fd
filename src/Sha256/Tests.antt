-- ===== src/Sha256/Tests.antt =====
-- Runs.
use xyzwhiteboard.Base.{◌≡◌, refl}
use xyzwhiteboard.Sha256.Text.{hash_string}

abc : hash_string "abc" ≡ "ba7816bf8f01cfea414140de5dae2223b00361a396177a9cb410ff61f20015ad"
unfolding hash_string
abc = refl

empty : hash_string "" ≡ "e3b0c44298fc1c149afbf4c8996fb92427ae41e4649b934ca495991b7852b855"
unfolding hash_string
empty = refl

-- Two blocks.
long :
    hash_string "abcdbcdecdefdefgefghfghighijhijkijkljklmklmnlmnomnopnopq"
    ≡ "248d6a61d20638b8e5c026930c3e6039a33ce45964ff2167f6ecedd419db06c1"
unfolding hash_string
long = refl
