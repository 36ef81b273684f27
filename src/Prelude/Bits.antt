-- ===== src/Prelude/Bits.antt =====
-- Single bits of a byte. Each law is a table over the values of a byte, checked by evaluation.
use Prim.Native.Nat.{ℕ, zero, suc, ◌<◌, ◌^◌, bit_and, bit_or, bit_xor}
use mathlib.Core.Path.{◌≡◌, refl}
use mathlib.Core.Bool.{Bool, true, false, ◌&&◌, not}
use native.Mathlib.Omega.{arith}
use go_bt.Prelude.Tests.{◌==◌, ltb, ltb→lt, if◌then◌else◌}

-- `b | (1 << k)`, `b &^ (1 << k)` and `b & (1 << k) != 0`, on a byte `b`.
unfoldable pub set_bit : ℕ → ℕ → ℕ
set_bit b k = bit_or b (2 ^ k)

unfoldable pub clear_bit : ℕ → ℕ → ℕ
clear_bit b k = bit_and b (bit_xor 255 (2 ^ k))

unfoldable pub test_bit : ℕ → ℕ → Bool
test_bit b k = not (bit_and b (2 ^ k) == 0)

-- The test holds of every number below the bound.
unfoldable pub every_below : ℕ → (ℕ → Bool) → Bool
every_below zero test = true
every_below (suc bound) test = test bound && every_below bound test

pub every_below-true :
    (bound : ℕ) (test : ℕ → Bool) (v : ℕ)
    → every_below bound test ≡ true
    → v < bound
    → test v ≡ true
unfolding every_below
every_below-true zero test v table small = absurd (omega arith)
every_below-true (suc bound) test v table small = ground (arith, every_below-true bound test v)

-- A test over a byte and two positions in it.
all_bits : (ℕ → ℕ → ℕ → Bool) → Bool
all_bits p = every_below 256 (λ b. every_below 8 (λ k. every_below 8 (λ j. p b k j)))

all_bits_sound :
    (p : ℕ → ℕ → ℕ → Bool) (b k j : ℕ)
    → all_bits p ≡ true
    → b < 256
    → k < 8
    → j < 8
    → p b k j ≡ true
unfolding all_bits
all_bits_sound p b k j h hb hk hj =
    every_below-true 8 _ j (every_below-true 8 _ k (every_below-true 256 _ b h hb) hk) hj

bool_beq : Bool → Bool → Bool
bool_beq true b = b
bool_beq false b = not b

bool_beq→eq : (a b : Bool) → bool_beq a b ≡ true → a ≡ b
unfolding bool_beq
bool_beq→eq a b h = ground arith

set_table :
    all_bits (λ b k j. bool_beq (test_bit (set_bit b k) j) (if k == j then true else test_bit b j))
    ≡ true
unfolding all_bits every_below bool_beq test_bit set_bit
set_table = refl

clear_table :
    all_bits
      (λ b k j. bool_beq (test_bit (clear_bit b k) j) (if k == j then false else test_bit b j))
    ≡ true
unfolding all_bits every_below bool_beq test_bit clear_bit
clear_table = refl

range_table : all_bits (λ b k j. ltb (set_bit b k) 256 && ltb (clear_bit b k) 256) ≡ true
unfolding all_bits every_below set_bit clear_bit
range_table = refl

extreme_table : every_below 8 (λ k. not (test_bit 0 k) && test_bit 255 k) ≡ true
unfolding every_below test_bit
extreme_table = refl

pub test_bit_extremes : (k : ℕ) → k < 8 → (test_bit 0 k ≡ false) × (test_bit 255 k ≡ true)
test_bit_extremes k h =
    let e = every_below-true 8 (λ k. not (test_bit 0 k) && test_bit 255 k) k extreme_table h in
    ground arith

module _ (b k j : ℕ) (hb : b < 256) (hk : k < 8) (hj : j < 8) where
  pub test_bit-set_bit : test_bit (set_bit b k) j ≡ (if k == j then true else test_bit b j)
  test_bit-set_bit = bool_beq→eq _ _ (all_bits_sound _ b k j set_table hb hk hj)

  pub test_bit-clear_bit : test_bit (clear_bit b k) j ≡ (if k == j then false else test_bit b j)
  test_bit-clear_bit = bool_beq→eq _ _ (all_bits_sound _ b k j clear_table hb hk hj)

module _ (b k : ℕ) (hb : b < 256) (hk : k < 8) where
  range_fact : (ltb (set_bit b k) 256 && ltb (clear_bit b k) 256) ≡ true
  range_fact = all_bits_sound _ b k 0 range_table hb hk (omega arith)

  pub set_bit-lt : set_bit b k < 256
  set_bit-lt = ground (arith, range_fact)

  pub clear_bit-lt : clear_bit b k < 256
  clear_bit-lt = ground (arith, range_fact)

xor_table : every_below 256 (λ a. every_below 256 (λ b. ltb (bit_xor a b) 256)) ≡ true
unfolding every_below
xor_table = refl

pub bit_xor-lt : (a b : ℕ) → a < 256 → b < 256 → bit_xor a b < 256
bit_xor-lt a b ha hb =
    ltb→lt _ _ (every_below-true 256 _ b (every_below-true 256 _ a xor_table ha) hb)
