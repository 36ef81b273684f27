-- ===== src/Dht/Closest/Insert.antt =====
-- `push` of dht/routing_table.go is an ordered insertion that is cut at `maxnum`.
use mathlib.Core.List.{Perm, perm_middle}
use mathlib.Core.List.Perm
use go_bt.Prelude.{
  ℕ, zero, suc, ◌+◌, ◌≤◌, ◌≡◌, refl, ap, Bool-cases, inl, inr, List, [], ◌∷◌, ◌++◌, length, take,
  drop, All-take, All-drop, take-take_le, All, ltb, if◌then◌else◌, arith,
}
use go_bt.Dht.Closest.{slide}

module _ {ℓ} {A : Type ℓ} (d : A → ℕ) where
  -- Behind the entries that are not farther.
  unfoldable pub insert_by : A → List A → List A
  insert_by n [] = n ∷ []
  insert_by n (x ∷ xs) = if ltb (d n) (d x) then n ∷ x ∷ xs else x ∷ insert_by n xs

  abbrev pub SortedBy : List A → Type 0
  SortedBy [] = Unit {0}
  SortedBy (x ∷ xs) = All (λ y. d x ≤ d y) xs × SortedBy xs

  -- The number of entries in front that are not farther than `n`.
  unfoldable pub rank : A → List A → ℕ
  rank n [] = 0
  rank n (x ∷ xs) = let rest = rank n xs in if ltb (d n) (d x) then 0 else suc rest

  pub rank-le : (n : A) (xs : List A) → rank n xs ≤ length xs
  unfolding rank
  rank-le n [] = omega arith
  rank-le n (x ∷ xs) = ground (arith, rank-le n xs)

  All-le_trans : (m k : ℕ) (xs : List A) → m ≤ k → All (λ y. k ≤ d y) xs → All (λ y. m ≤ d y) xs
  All-le_trans m k [] h a = tt
  All-le_trans m k (x ∷ xs) h a = (omega arith, All-le_trans m k xs h a.1)

  All-insert_by :
      (m : ℕ) (n : A) (xs : List A)
      → m ≤ d n
      → All (λ y. m ≤ d y) xs
      → All (λ y. m ≤ d y) (insert_by n xs)
  unfolding insert_by
  All-insert_by m n [] h a = (h, tt)
  All-insert_by m n (x ∷ xs) h a = elim (Bool-cases (ltb (d n) (d x))) [
    | inl e ↦ rw e (h, a)
    | inr e ↦ rw e (a.0, All-insert_by m n xs h a.1)
  ]

  pub insert_by-SortedBy : (n : A) (xs : List A) → SortedBy xs → SortedBy (insert_by n xs)
  unfolding insert_by
  insert_by-SortedBy n [] s = (tt, tt)
  insert_by-SortedBy n (x ∷ xs) s = elim (Bool-cases (ltb (d n) (d x))) [
    | inl e ↦ rw e ((ground arith, All-le_trans (d n) (d x) xs (ground arith) s.0), s)
    | inr e ↦ rw e (All-insert_by (d x) n xs (ground arith) s.0, insert_by-SortedBy n xs s.1)
  ]

  pub length-insert_by : (n : A) (xs : List A) → length (insert_by n xs) ≡ suc (length xs)
  unfolding insert_by
  length-insert_by n [] = refl
  length-insert_by n (x ∷ xs) = ground (arith, length-insert_by n xs)

  pub All-insert_by_any {κ} :
      (P : A → Type κ) (n : A) (xs : List A) → P n → All P xs → All P (insert_by n xs)
  unfolding insert_by
  All-insert_by_any P n [] h a = (h, tt)
  All-insert_by_any P n (x ∷ xs) h a = elim (Bool-cases (ltb (d n) (d x))) [
    | inl e ↦ rw e (h, a)
    | inr e ↦ rw e (a.0, All-insert_by_any P n xs h a.1)
  ]

  pub insert_by-perm : (n : A) (xs : List A) → Perm (insert_by n xs) (n ∷ xs)
  unfolding insert_by
  insert_by-perm n [] = Perm.refl (n ∷ [])
  insert_by-perm n (x ∷ xs) = elim (Bool-cases (ltb (d n) (d x))) [
    | inl e ↦ rw e (Perm.refl (n ∷ x ∷ xs))
    | inr e ↦ rw e (Perm.trans (Perm.cons x (insert_by-perm n xs)) (Perm.swap n x xs))
  ]

  slide-zero : (n w : A) (xs : List A) → slide 0 n (xs ++ (w ∷ [])) ≡ n ∷ xs
  unfolding slide
  slide-zero n w [] = refl
  slide-zero n w (x ∷ xs) = ap (◌∷◌ n) (slide-zero x w xs)

  slide-cut : (n : A) (xs : List A) → slide 0 n xs ≡ take (length xs) (n ∷ xs)
  unfolding slide
  slide-cut n [] = refl
  slide-cut n (x ∷ xs) = ap (◌∷◌ n) (slide-cut x xs)

  -- A list that grew by one slot takes the new entry in.
  pub slide-rank_grown :
      (n : A) (xs : List A) → slide (rank n xs) n (xs ++ (n ∷ [])) ≡ insert_by n xs
  unfolding slide rank insert_by
  slide-rank_grown n [] = refl
  slide-rank_grown n (x ∷ xs) = elim (Bool-cases (ltb (d n) (d x))) [
    | inl e ↦ rw e (ap (λ r. n ∷ r) (slide-zero x n xs))
    | inr e ↦ rw e (ap (◌∷◌ x) (slide-rank_grown n xs))
  ]

  -- A full list loses its last entry.
  pub slide-rank_full :
      (n : A) (xs : List A) → slide (rank n xs) n xs ≡ take (length xs) (insert_by n xs)
  unfolding slide rank insert_by
  slide-rank_full n [] = refl
  slide-rank_full n (x ∷ xs) = elim (Bool-cases (ltb (d n) (d x))) [
    | inl e ↦ rw e (ap (◌∷◌ n) (slide-cut x xs))
    | inr e ↦ rw e (ap (◌∷◌ x) (slide-rank_full n xs))
  ]

  pub slide_at_length : (n : A) (xs : List A) → slide (length xs) n xs ≡ xs
  unfolding slide
  slide_at_length n [] = refl
  slide_at_length n (x ∷ xs) = ap (◌∷◌ x) (slide_at_length n xs)

  take-cons-take : (m : ℕ) (x : A) (xs : List A) → take m (x ∷ take m xs) ≡ take m (x ∷ xs)
  take-cons-take zero x xs = refl
  take-cons-take (suc m) x xs = ap (◌∷◌ x) (take-take_le m (suc m) xs (omega arith))

  -- An insertion into the first `m` of a list shows the same first `m`.
  pub take-insert_by :
      (m : ℕ) (n : A) (xs : List A) → take m (insert_by n (take m xs)) ≡ take m (insert_by n xs)
  unfolding insert_by
  take-insert_by zero n xs = refl
  take-insert_by (suc m) n [] = refl
  take-insert_by (suc m) n (x ∷ xs) = elim (Bool-cases (ltb (d n) (d x))) [
    | inl e ↦ rw e (ap (◌∷◌ n) (take-cons-take m x xs))
    | inr e ↦ rw e (ap (◌∷◌ x) (take-insert_by m n xs))
  ]

  -- Insertion of one entry after the other.
  unfoldable pub insert_all : List A → List A → List A
  insert_all s [] = s
  insert_all s (n ∷ ns) = insert_all (insert_by n s) ns

  pub insert_all-SortedBy : (s ns : List A) → SortedBy s → SortedBy (insert_all s ns)
  unfolding insert_all
  insert_all-SortedBy s [] h = h
  insert_all-SortedBy s (n ∷ ns) h =
      insert_all-SortedBy (insert_by n s) ns (insert_by-SortedBy n s h)

  pub insert_all-perm : (s ns : List A) → Perm (insert_all s ns) (ns ++ s)
  unfolding insert_all
  insert_all-perm s [] = Perm.refl s
  insert_all-perm s (n ∷ ns) =
      Perm.trans (insert_all-perm (insert_by n s) ns)
        (Perm.trans (Perm.append (Perm.refl ns) (insert_by-perm n s)) (perm_middle ns s))

  pub length-insert_all : (s ns : List A) → length (insert_all s ns) ≡ length s + length ns
  unfolding insert_all
  length-insert_all s [] = omega arith
  length-insert_all s (n ∷ ns) =
      omega (arith, length-insert_all (insert_by n s) ns, length-insert_by n s)

  pub All-insert_all_any {κ} :
      (P : A → Type κ) (s ns : List A) → All P s → All P ns → All P (insert_all s ns)
  unfolding insert_all
  All-insert_all_any P s [] h a = h
  All-insert_all_any P s (n ∷ ns) h a =
      All-insert_all_any P (insert_by n s) ns (All-insert_by_any P n s a.0 h) a.1

  pub insert_all-append :
      (s ns ms : List A) → insert_all s (ns ++ ms) ≡ insert_all (insert_all s ns) ms
  unfolding insert_all
  insert_all-append s [] ms = refl
  insert_all-append s (n ∷ ns) ms = insert_all-append (insert_by n s) ns ms

  -- A sorted list: what stands in front is no farther than what stands behind.
  pub SortedBy-split :
      (m : ℕ) (xs : List A)
      → SortedBy xs
      → SortedBy (take m xs) × All (λ x. All (λ y. d x ≤ d y) (drop m xs)) (take m xs)
  SortedBy-split zero xs s = (tt, tt)
  SortedBy-split (suc m) [] s = (tt, tt)
  SortedBy-split (suc m) (x ∷ xs) s =
      let (sorted, ordered) = SortedBy-split m xs s.1 in
      ((All-take _ m xs s.0, sorted), (All-drop _ m xs s.0, ordered))
