-- ===== src/Dht/BucketId.antt =====
-- `bucketid` of dht/routing_table.go: the bucket of a node is given by the highest bit in which its
-- identifier differs from the owner's.
use go_bt.Prelude.{
  ℕ, zero, suc, ◌+◌, ◌-◌, ◌*◌, ◌^◌, ◌<◌, ◌≤◌, ◌≡◌, refl, ap, sym, ◌∙◌, Bool, true, Option, none,
  some, Option-cases, inl, inr, [], ◌∷◌, Bytes, length, bit_xor, ltb, leb, ◌==◌, ◌&&◌,
  if◌then◌else◌, All, IsByte, arith,
}
use native.Mathlib.Nat.{pow-suc, pow-zero, mul_assoc, zero-mul}
use go_bt.Prelude.Bits.{test_bit, bit_xor-lt, every_below, every_below-true}
use go_bt.Dht.Node.{Hash, IsHash}
use go_bt.Dht.Distance.{distance, distance-lt}

-- The ladder of tests, from the bit 0x80 down: the highest bit that is set.
unfoldable pub bit_diff : ℕ → Option ℕ
bit_diff v =
    if test_bit v 7
    then some 7
    else if test_bit v 6
    then some 6
    else if test_bit v 5
    then some 5
    else if test_bit v 4
    then some 4
    else if test_bit v 3
    then some 3
    else if test_bit v 2
    then some 2
    else if test_bit v 1
    then some 1
    else if test_bit v 0
    then some 0
    else none

-- The loop from index `i` on. Where no byte differs, `i` keeps the last index and `bitDiff` is 0.
unfoldable pub bucketid_from : ℕ → Bytes → Bytes → ℕ
bucketid_from i (bite ∷ owner) (n ∷ nid) =
    let rest = bucketid_from (suc i) owner nid in
    elim (bit_diff (bit_xor bite n)) [ none ↦ rest | some d ↦ i * 8 + (7 - d) ]
bucketid_from i _ _ = (i - 1) * 8 + (7 - 0)

unfoldable pub bucketid : Hash → Hash → ℕ
bucketid owner nid = bucketid_from 0 owner nid

-- What `bit_diff` finds, as a test on one byte.
good_bit : ℕ → Option ℕ → Bool
good_bit v none = v == 0
good_bit v (some d) = ltb d 8 && (leb (2 ^ d) v && ltb v (2 ^ suc d))

bit_table : every_below 256 (λ v. good_bit v (bit_diff v)) ≡ true
unfolding every_below good_bit bit_diff test_bit
bit_table = refl

bit_diff-good : (v : ℕ) → v < 256 → good_bit v (bit_diff v) ≡ true
bit_diff-good v h = every_below-true 256 (λ v. good_bit v (bit_diff v)) v bit_table h

bit_diff-none : (v : ℕ) → v < 256 → bit_diff v ≡ none → v ≡ 0
unfolding good_bit
bit_diff-none v h e = ground (arith, bit_diff-good v h)

bit_diff-some : (v d : ℕ) → v < 256 → bit_diff v ≡ some d → (d < 8) × (2 ^ d ≤ v) × (v < 2 ^ suc d)
unfolding good_bit
bit_diff-some v d h e = ground (arith, bit_diff-good v h)

pow_add : (a m n : ℕ) → a ^ (m + n) ≡ a ^ m * a ^ n
pow_add a m zero = let e : m + 0 ≡ m = omega arith in rw (e, pow-zero a) (omega arith)
pow_add a m (suc n) =
    let e : m + suc n ≡ suc (m + n) = omega arith in
    rw (e, pow-suc, pow_add a m n) (rw (pow-suc a n) (mul_assoc (a ^ m) (a ^ n) a))

pow_bytes : (n : ℕ) → 256 ^ n ≡ 2 ^ (8 * n)
pow_bytes zero = refl
pow_bytes (suc n) =
    let e : 8 * suc n ≡ 8 * n + 8 = omega arith in
    pow-suc 256 n
    ∙ ap (λ (x : ℕ). x * 256) (pow_bytes n)
    ∙ sym (pow_add 2 (8 * n) 8)
    ∙ ap (λ (x : ℕ). 2 ^ x) (sym e)

-- `b` is the bucket of a distance in `[2 ^ bit, 2 ^ (bit + 1))`, counted from the top of `size` bits.
pub record IsBucketOf (b dist size : ℕ) : Type 0 where
  pub bit : ℕ
  pub position : b + 1 + bit ≡ size
  pub low : 2 ^ bit ≤ dist
  pub high : dist < 2 ^ suc bit

scaled_low : (v a r p : ℕ) → a ≤ v → p * a ≤ v * p + r
scaled_low v a r p h = grind arith

scaled_high : (v b r p : ℕ) → v < b → r < p → v * p + r < p * b
scaled_high v b r p h hr = grind arith

-- A byte whose highest bit is `d`, in front of `n` bytes that hold `r`.
byte_bounds :
    (v d r n : ℕ)
    → 2 ^ d ≤ v
    → v < 2 ^ suc d
    → r < 256 ^ n
    → (2 ^ (8 * n + d) ≤ v * 256 ^ n + r) × (v * 256 ^ n + r < 2 ^ suc (8 * n + d))
byte_bounds v d r n lo hi hr =
    let p : ℕ = 256 ^ n in
    let low : 2 ^ (8 * n + d) ≡ p * 2 ^ d =
      pow_add 2 (8 * n) d ∙ ap (λ (x : ℕ). x * 2 ^ d) (sym (pow_bytes n)) in
    let high : 2 ^ suc (8 * n + d) ≡ p * 2 ^ suc d =
      pow-suc 2 (8 * n + d)
      ∙ ap (λ (x : ℕ). x * 2) low
      ∙ mul_assoc p (2 ^ d) 2
      ∙ ap (λ (x : ℕ). p * x) (sym (pow-suc 2 d)) in
    (rw low (scaled_low v (2 ^ d) r p lo), rw high (scaled_high v (2 ^ suc d) r p hi hr))

bucketid_from-none :
    (i x y : ℕ) (owner nid : Bytes)
    → bit_diff (bit_xor x y) ≡ none
    → bucketid_from i (x ∷ owner) (y ∷ nid) ≡ bucketid_from (suc i) owner nid
unfolding bucketid_from
bucketid_from-none i x y owner nid e = ground arith

bucketid_from-some :
    (i x y d : ℕ) (owner nid : Bytes)
    → bit_diff (bit_xor x y) ≡ some d
    → bucketid_from i (x ∷ owner) (y ∷ nid) ≡ i * 8 + (7 - d)
unfolding bucketid_from
bucketid_from-some i x y d owner nid e = ground arith

IsBucketOf-eq :
    {b b' dist dist' size size' : ℕ}
    → b' ≡ b
    → dist' ≡ dist
    → size ≡ size'
    → IsBucketOf b dist size
    → IsBucketOf b' dist' size'
IsBucketOf-eq p q r k = record {
  bit = k.bit;
  position = omega (arith, k.position);
  low = omega (arith, k.low);
  high = omega (arith, k.high);
}

bucketid_from_lem :
    (i : ℕ) (owner nid : Bytes)
    → length owner ≡ length nid
    → All IsByte owner
    → All IsByte nid
    → 0 < distance nid owner
    → IsBucketOf (bucketid_from i owner nid) (distance nid owner) (8 * (i + length owner))
unfolding distance
bucketid_from_lem i [] [] e ho hn h = absurd (omega arith)
bucketid_from_lem i [] (y ∷ nid) e ho hn h = absurd (omega arith)
bucketid_from_lem i (x ∷ owner) [] e ho hn h = absurd (omega arith)
bucketid_from_lem i (x ∷ owner) (y ∷ nid) e ho hn h =
    let v : ℕ = bit_xor x y in
    let hv : v < 256 = bit_xor-lt x y ho.0 hn.0 in
    let hr = distance-lt nid owner (omega arith) hn.1 ho.1 in
    elim (Option-cases (bit_diff v)) [
      | inl absent ↦
          let z : v * 256 ^ length owner ≡ 0 =
            ap (λ (t : ℕ). t * 256 ^ length owner) (bit_diff-none v hv absent)
            ∙ zero-mul (256 ^ length owner) in
          IsBucketOf-eq (bucketid_from-none i x y owner nid absent) (omega arith) (omega arith)
            (bucketid_from_lem (suc i) owner nid (omega arith) ho.1 hn.1 (omega arith))
      | inr (d, found) ↦
          let (small, lo, hi) = bit_diff-some v d hv found in
          let (low, high) = byte_bounds v d (distance nid owner) (length owner) lo hi hr in
          IsBucketOf-eq (bucketid_from-some i x y d owner nid found) refl refl
            (record { bit = 8 * length owner + d; position = omega arith; low = low; high = high })
    ]

-- A node that is not the owner goes to the bucket that counts, from the top of 160 bits, the highest
-- bit of its distance: the bucket `b` holds the distances from `2 ^ (159 - b)` up to, and not with,
-- `2 ^ (160 - b)`.
pub bucketid-IsBucketOf :
    (owner nid : Hash)
    → IsHash owner
    → IsHash nid
    → 0 < distance nid owner
    → IsBucketOf (bucketid owner nid) (distance nid owner) 160
unfolding bucketid
bucketid-IsBucketOf owner nid ho hn h =
    IsBucketOf-eq refl refl (omega (arith, ho.size))
      (bucketid_from_lem 0 owner nid (ho.size ∙ sym hn.size) ho.bytes hn.bytes h)

bit_diff-lt : (v d : ℕ) → bit_diff v ≡ some d → d < 8
unfolding bit_diff
bit_diff-lt v d e = ground arith

bucketid_from-lt :
    (i : ℕ) (owner nid : Bytes)
    → length owner ≡ length nid
    → 0 < i + length owner
    → bucketid_from i owner nid < 8 * (i + length owner)
unfolding bucketid_from
bucketid_from-lt i [] [] e h = omega arith
bucketid_from-lt i [] (y ∷ nid) e h = absurd (omega arith)
bucketid_from-lt i (x ∷ owner) [] e h = absurd (omega arith)
bucketid_from-lt i (x ∷ owner) (y ∷ nid) e h = ground (
  arith,
  bit_diff-lt (bit_xor x y),
  bucketid_from-lt (suc i) owner nid (omega arith) (omega arith),
)

-- On hashes the index is within the 160 buckets of the table, the owner's own hash included.
pub bucketid-lt : (owner nid : Hash) → IsHash owner → IsHash nid → bucketid owner nid < 160
unfolding bucketid
bucketid-lt owner nid ho hn =
    let l = bucketid_from-lt 0 owner nid (ho.size ∙ sym hn.size) (omega (arith, ho.size)) in
    omega (arith, ho.size)
