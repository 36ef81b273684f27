-- ===== src/Prelude/Map.antt =====
-- Go maps as association lists. Assigning to a key replaces its value in place, so that the number
-- of entries is the map's length.
use Prim.Native.Nat.{suc, ◌≤◌}
use mathlib.Core.Path.{◌≡◌, refl}
use mathlib.Core.Bool.{Bool}
use mathlib.Core.List.{List, [], ◌∷◌}
use mathlib.Core.Option.{Option, none, some}
use native.Mathlib.Omega.{arith}
use go_bt.Prelude.Tests.{if◌then◌else◌}
use go_bt.Prelude.Lists.{length}
use go_bt.Prelude.Keys.{Eq}

abbrev pub Map {ℓ} : Type ℓ → Type ℓ → Type ℓ
Map K V = List (K × V)

module _ {ℓ} {K V : Type ℓ} ⦃e : Eq K⦄ where
  unfoldable pub lookup : K → Map K V → Option V
  lookup k [] = none
  lookup k ((j, v) ∷ rest) = if e.beq j k then some v else lookup k rest

  unfoldable pub insert : K → V → Map K V → Map K V
  insert key new [] = (key, new) ∷ []
  insert key new ((j, old) ∷ entries) =
      let others = insert key new entries in
      if e.beq j key then (j, new) ∷ entries else (j, old) ∷ others

  unfoldable pub delete : K → Map K V → Map K V
  delete key [] = []
  delete key ((j, old) ∷ entries) =
      let others = delete key entries in if e.beq j key then others else (j, old) ∷ others

  pub lookup-insert :
      (k j : K) (v : V) (m : Map K V)
      → lookup j (insert k v m) ≡ (if e.beq k j then some v else lookup j m)
  unfolding lookup insert
  lookup-insert k j v [] = refl
  lookup-insert k j v ((i, w) ∷ m) =
      ground (arith, e.beq_iff k j, e.beq_iff i k, e.beq_iff i j, lookup-insert k j v m)

  pub lookup-delete :
      (k j : K) (m : Map K V) → lookup j (delete k m) ≡ (if e.beq k j then none else lookup j m)
  unfolding lookup delete
  lookup-delete k j [] = ground arith
  lookup-delete k j ((i, w) ∷ m) =
      ground (arith, e.beq_iff k j, e.beq_iff i k, e.beq_iff i j, lookup-delete k j m)

  pub length-insert :
      (k : K) (v : V) (m : Map K V)
      → length (insert k v m) ≡ elim (lookup k m) [ none ↦ suc (length m) | some _ ↦ length m ]
  unfolding lookup insert
  length-insert k v [] = refl
  length-insert k v ((i, w) ∷ m) = ground (arith, length-insert k v m)

  pub length-delete-le : (k : K) (m : Map K V) → length (delete k m) ≤ length m
  unfolding delete
  length-delete-le k [] = omega arith
  length-delete-le k ((i, w) ∷ m) = ground (arith, length-delete-le k m)

-- The loop `for k, v := range m { if drop(v) { delete(m, k) } }`.
module _ {ℓ} {K V : Type ℓ} where
  unfoldable pub delete_if : (V → Bool) → Map K V → Map K V
  delete_if drop [] = []
  delete_if drop ((j, w) ∷ m) =
      let rest = delete_if drop m in if drop w then rest else (j, w) ∷ rest

  pub length-delete_if-le : (d : V → Bool) (m : Map K V) → length (delete_if d m) ≤ length m
  unfolding delete_if
  length-delete_if-le d [] = omega arith
  length-delete_if-le d ((i, w) ∷ m) = ground (arith, length-delete_if-le d m)
