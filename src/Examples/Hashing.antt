-- ===== src/Examples/Hashing.antt =====
-- Uses of the theorems on src/base/utils.cpp at concrete bytes.
use xyzwhiteboard.Base.{ℕ, List, ◌≡◌, refl, arith, replicate}
use xyzwhiteboard.Sha256.Stream.{Sha256, construct, update, digest}
use xyzwhiteboard.Sha256.Stream.Buffer.{BufferInv, update-BufferInv}
use xyzwhiteboard.Sha256.Stream.Memory.{digest-construct}
use xyzwhiteboard.Sha256.Stream.Reference.{reference, digest-reference}

-- An object in memory that holds sevens.
abbrev fresh : Sha256
fresh = construct (replicate 64 7)

-- Seventy bytes: a block and six more.
abbrev long : List ℕ
long = replicate 70 97

update-BufferInv_example : BufferInv (update fresh long)
update-BufferInv_example =
    update-BufferInv fresh long (record { data_size = refl; state_size = refl; room = omega arith })

digest-construct_example :
    digest (update fresh long) ≡ digest (update (construct (replicate 64 0)) long)
digest-construct_example = digest-construct (replicate 64 7) (replicate 64 0) long refl refl

digest-reference_example : digest (update fresh long) ≡ reference long
digest-reference_example = digest-reference (replicate 64 7) long refl (omega arith)
