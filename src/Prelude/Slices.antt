-- ===== src/Prelude/Slices.antt =====
-- Slices `b[from:to]` of a list.
use Prim.Native.Nat.{ℕ, suc, ◌+◌, ◌-◌}
use mathlib.Core.Path.{◌≡◌, refl, ap, sym, subst, ◌∙◌}
use mathlib.Core.List.{List, [], ◌∷◌, ◌++◌}
use native.Mathlib.Omega.{arith}
use go_bt.Prelude.Lists.{length, take, drop}

module _ {ℓ} {A : Type ℓ} where
  -- The elements from `from` up to `to`, where the list has them.
  unfoldable pub slice : ℕ → ℕ → List A → List A
  slice from to xs = take (to - from) (drop from xs)

  drop-past : (xs ys : List A) (n : ℕ) → drop (length xs + n) (xs ++ ys) ≡ drop n ys
  drop-past [] ys n = let e : 0 + n ≡ n = omega arith in ap (λ k. drop k ys) e
  drop-past (x ∷ xs) ys n =
      let e : suc (length xs) + n ≡ suc (length xs + n) = omega arith in
      ap (λ k. drop k (x ∷ (xs ++ ys))) e ∙ drop-past xs ys n

  pub drop-behind :
      (xs ys : List A) (size n : ℕ) → length xs ≡ size → drop (size + n) (xs ++ ys) ≡ drop n ys
  drop-behind xs ys size n e =
      subst (λ k. drop (k + n) (xs ++ ys) ≡ drop n ys) e (drop-past xs ys n)

  take-front : (xs ys : List A) → take (length xs) (xs ++ ys) ≡ xs
  take-front [] ys = refl
  take-front (x ∷ xs) ys = ap (λ zs. x ∷ zs) (take-front xs ys)

  pub take_front : (xs ys : List A) (size : ℕ) → length xs ≡ size → take size (xs ++ ys) ≡ xs
  take_front xs ys size e = subst (λ k. take k (xs ++ ys) ≡ xs) e (take-front xs ys)

  pub drop_front : (xs ys : List A) (size : ℕ) → length xs ≡ size → drop size (xs ++ ys) ≡ ys
  drop_front [] ys size e = ap (λ k. drop k ys) (sym e)
  drop_front (x ∷ xs) ys size e =
      ap (λ k. drop k (x ∷ (xs ++ ys))) (sym e) ∙ drop_front xs ys (length xs) refl
