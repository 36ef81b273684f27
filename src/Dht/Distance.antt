-- ===== src/Dht/Distance.antt =====
-- `distcmp` of dht/routing_table.go, and the number that it compares by.
use native.Mathlib.Nat.{pow-suc}
use go_bt.Prelude.{
  ℕ, ◌+◌, ◌*◌, ◌^◌, ◌<◌, ◌≡◌, refl, ap, [], ◌∷◌, Bytes, length, bit_xor, ltb, if◌then◌else◌, All,
  IsByte, arith,
}
use go_bt.Prelude.Bits.{bit_xor-lt}

-- The results -1, 0 and 1 of a comparison.
pub data Cmp : Type 0 where
  less same greater : Cmp

-- `distcmp(target, a, b)` on three hashes.
unfoldable pub distcmp : Bytes → Bytes → Bytes → Cmp
distcmp (t ∷ target) (x ∷ a) (y ∷ b) =
    let rest = distcmp target a b in
    let da = bit_xor x t in
    let db = bit_xor y t in if ltb db da then greater else if ltb da db then less else rest
distcmp _ _ _ = same

-- The distance of BEP 5: the exclusive or, read as one number with the first byte on top.
unfoldable pub distance : Bytes → Bytes → ℕ
distance (t ∷ target) (x ∷ a) = bit_xor x t * 256 ^ length a + distance target a
distance _ _ = 0

unfoldable pub cmp_of : ℕ → ℕ → Cmp
cmp_of m n = if ltb n m then greater else if ltb m n then less else same

-- Two numbers written with a top digit over `p`.
pub digit-lt : (u r p : ℕ) → u < 256 → r < p → u * p + r < 256 * p
digit-lt u r p hu hr = grind arith

digit_order : (u v r s p : ℕ) → u < v → r < p → u * p + r < v * p + s
digit_order u v r s p huv hr = grind arith

pub distance-lt :
    (target a : Bytes)
    → length target ≡ length a
    → All IsByte target
    → All IsByte a
    → distance target a < 256 ^ length a
unfolding distance
distance-lt [] [] e ht ha = omega arith
distance-lt [] (x ∷ a) e ht ha = absurd (omega arith)
distance-lt (t ∷ target) [] e ht ha = absurd (omega arith)
distance-lt (t ∷ target) (x ∷ a) e ht ha = rw (pow-suc 256 (length a)) (
    omega (
      arith,
      digit-lt (bit_xor x t) (distance target a) (256 ^ length a) (bit_xor-lt x t ha.0 ht.0)
          (distance-lt target a (omega arith) ht.1 ha.1),
    ))

-- `distcmp` orders two hashes by their distances to the target.
pub distcmp-distance :
    (target a b : Bytes)
    → length target ≡ length a
    → length target ≡ length b
    → All IsByte target
    → All IsByte a
    → All IsByte b
    → distcmp target a b ≡ cmp_of (distance target a) (distance target b)
unfolding distcmp distance cmp_of
distcmp-distance [] [] [] ea eb ht ha hb = refl
distcmp-distance (t ∷ target) (x ∷ a) (y ∷ b) ea eb ht ha hb =
    let p : ℕ = 256 ^ length target in
    let pa : 256 ^ length a ≡ p = ap (λ n. 256 ^ n) (omega arith) in
    let pb : 256 ^ length b ≡ p = ap (λ n. 256 ^ n) (omega arith) in
    rw (pa, pb)
      (ground (
        arith,
        distance-lt target a (omega arith) ht.1 ha.1,
        distance-lt target b (omega arith) ht.1 hb.1,
        digit_order (bit_xor x t) (bit_xor y t) (distance target a) (distance target b) p,
        digit_order (bit_xor y t) (bit_xor x t) (distance target b) (distance target a) p,
        distcmp-distance target a b (omega arith) (omega arith) ht.1 ha.1 hb.1,
      ))
distcmp-distance _ _ _ ea eb ht ha hb = absurd (omega arith)
