-- ===== src/Prelude/Words.antt =====
-- Big-endian machine words, as Go's encoding/binary writes and reads them.
use Prim.Native.Nat.{ℕ, ◌+◌, ◌*◌, ◌/◌, ◌%◌, ◌^◌, ◌<◌}
use mathlib.Core.Path.{◌≡◌}
use mathlib.Core.List.{List, [], ◌∷◌}
use native.Mathlib.Omega.{arith}
use go_bt.Prelude.Lists.{All}

-- A byte slice.
abbrev pub Bytes : Type 0
Bytes = List ℕ

abbrev pub IsByte : ℕ → Type 0
IsByte b = b < 256

abbrev pub IsU16 : ℕ → Type 0
IsU16 v = v < 2 ^ 16

abbrev pub IsU32 : ℕ → Type 0
IsU32 v = v < 2 ^ 32

abbrev pub IsU64 : ℕ → Type 0
IsU64 v = v < 2 ^ 64

unfoldable pub be16 : ℕ → Bytes
be16 v = (v / 256 % 256) ∷ (v % 256) ∷ []

unfoldable pub be32 : ℕ → Bytes
be32 v = (v / 2 ^ 24 % 256) ∷ (v / 2 ^ 16 % 256) ∷ (v / 256 % 256) ∷ (v % 256) ∷ []

unfoldable pub of_be16 : ℕ → ℕ → ℕ
of_be16 a b = a * 256 + b

unfoldable pub of_be32 : ℕ → ℕ → ℕ → ℕ → ℕ
of_be32 a b c d = a * 2 ^ 24 + b * 2 ^ 16 + c * 256 + d

pub of_be16-be16 : (v : ℕ) → IsU16 v → of_be16 (v / 256 % 256) (v % 256) ≡ v
unfolding of_be16
of_be16-be16 v h = omega arith

pub of_be32-be32 :
    (v : ℕ) → IsU32 v → of_be32 (v / 2 ^ 24 % 256) (v / 2 ^ 16 % 256) (v / 256 % 256) (v % 256) ≡ v
unfolding of_be32
of_be32-be32 v h = omega arith

pub be32-IsByte : (v : ℕ) → All IsByte (be32 v)
unfolding be32
be32-IsByte v = omega arith

-- A 64-bit word.
unfoldable pub be64 : ℕ → Bytes
be64 v =
    (v / 2 ^ 56 % 256)
    ∷ (v / 2 ^ 48 % 256)
    ∷ (v / 2 ^ 40 % 256)
    ∷ (v / 2 ^ 32 % 256)
    ∷ (v / 2 ^ 24 % 256)
    ∷ (v / 2 ^ 16 % 256)
    ∷ (v / 256 % 256)
    ∷ (v % 256)
    ∷ []

-- The number that a slice of bytes holds.
unfoldable pub of_be_from : ℕ → Bytes → ℕ
of_be_from acc [] = acc
of_be_from acc (b ∷ bs) = of_be_from (acc * 256 + b) bs

unfoldable pub of_be : Bytes → ℕ
of_be bs = of_be_from 0 bs

pub of_be-be16 : (v : ℕ) → IsU16 v → of_be (be16 v) ≡ v
unfolding of_be of_be_from be16
of_be-be16 v h = omega arith

pub of_be-be32 : (v : ℕ) → IsU32 v → of_be (be32 v) ≡ v
unfolding of_be of_be_from be32
of_be-be32 v h = omega arith

pub of_be-be64 : (v : ℕ) → IsU64 v → of_be (be64 v) ≡ v
unfolding of_be of_be_from be64
of_be-be64 v h = omega arith
