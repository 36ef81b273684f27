-- ===== src/Peer/Pieces/Sorted.antt =====
-- The order of `Pieces` (peerprotocol/message.go), and what it contains.
use go_bt.Prelude.{
  ℕ, ◌<◌, ◌≡◌, inl, inr, refl, ◌∙◌, false, not, ◌||◌, ◌&&◌, Bool-cases, List, [], ◌∷◌, ◌++◌, All,
  contains, ltb, ◌==◌, arith,
}
use go_bt.Peer.Pieces.{insert_sorted, sort, append, remove}

-- Every entry is larger than the ones before it.
abbrev pub IsSorted : List ℕ → Type 0
IsSorted [] = Unit
IsSorted (x ∷ xs) = All (λ y. x < y) xs × IsSorted xs

contains-insert :
    (a b : ℕ) (xs : List ℕ) → contains (insert_sorted a xs) b ≡ (a == b || contains xs b)
unfolding insert_sorted
contains-insert a b [] = ground arith
contains-insert a b (x ∷ xs) = ground (arith, contains-insert a b xs)

contains-sort : (b : ℕ) (xs : List ℕ) → contains (sort xs) b ≡ contains xs b
unfolding sort
contains-sort b [] = refl
contains-sort b (x ∷ xs) = ground (arith, contains-insert x b (sort xs), contains-sort b xs)

contains-snoc : (a b : ℕ) (xs : List ℕ) → contains (xs ++ (a ∷ [])) b ≡ (contains xs b || a == b)
contains-snoc a b [] = ground arith
contains-snoc a b (x ∷ xs) = ground (arith, contains-snoc a b xs)

-- `Append` adds its index and nothing else.
pub contains-append : (ps : List ℕ) (a b : ℕ) → contains (append ps a) b ≡ (contains ps b || a == b)
unfolding append
contains-append ps a b = ground (arith, contains-sort b (ps ++ (a ∷ [])), contains-snoc a b ps)

larger-insert :
    (m a : ℕ) (xs : List ℕ) → m < a → All (λ y. m < y) xs → All (λ y. m < y) (insert_sorted a xs)
unfolding insert_sorted
larger-insert m a [] l h = (l, tt)
larger-insert m a (x ∷ xs) l h = elim (Bool-cases (ltb x a)) [
  | inl e ↦ rw e (h.0, larger-insert m a xs l h.1)
  | inr e ↦ rw e (l, h)
]

larger_than : (m n : ℕ) (xs : List ℕ) → m < n → All (λ y. n < y) xs → All (λ y. m < y) xs
larger_than m n [] l h = tt
larger_than m n (x ∷ xs) l h =
    let here : m < x = omega (arith, h.0) in (here, larger_than m n xs l h.1)

insert-IsSorted :
    (a : ℕ) (xs : List ℕ) → contains xs a ≡ false → IsSorted xs → IsSorted (insert_sorted a xs)
unfolding insert_sorted
insert-IsSorted a [] n h = (tt, tt)
insert-IsSorted a (x ∷ xs) n h =
    let tail : contains xs a ≡ false = ground arith in
    elim (Bool-cases (ltb x a)) [
      | inl e ↦
          let l : x < a = ground arith in
          rw e (larger-insert x a xs l h.0, insert-IsSorted a xs tail h.1)
      | inr e ↦ let l : a < x = ground arith in rw e ((l, larger_than a x xs l h.0), h)
    ]

-- The list is without repetition.
abbrev pub IsDistinct : List ℕ → Type 0
IsDistinct [] = Unit
IsDistinct (x ∷ xs) = (contains xs x ≡ false) × IsDistinct xs

sort-IsSorted : (xs : List ℕ) → IsDistinct xs → IsSorted (sort xs)
unfolding sort
sort-IsSorted [] h = tt
sort-IsSorted (x ∷ xs) h =
    insert-IsSorted x (sort xs) (contains-sort x xs ∙ h.0) (sort-IsSorted xs h.1)

larger-absent : (m : ℕ) (xs : List ℕ) → All (λ y. m < y) xs → contains xs m ≡ false
larger-absent m [] h = refl
larger-absent m (x ∷ xs) h = let l : m < x = h.0 in ground (arith, larger-absent m xs h.1)

IsDistinct-snoc :
    (a : ℕ) (xs : List ℕ) → contains xs a ≡ false → IsSorted xs → IsDistinct (xs ++ (a ∷ []))
IsDistinct-snoc a [] n h = (refl, tt)
IsDistinct-snoc a (x ∷ xs) n h =
    let fresh : contains (xs ++ (a ∷ [])) x ≡ false =
      ground (arith, contains-snoc a x xs, larger-absent x xs h.0) in
    let tail : contains xs a ≡ false = ground arith in (fresh, IsDistinct-snoc a xs tail h.1)

-- `Append` keeps a list in order and without repetition.
pub append-IsSorted : (ps : List ℕ) (a : ℕ) → IsSorted ps → IsSorted (append ps a)
unfolding append
append-IsSorted ps a h = elim (Bool-cases (contains ps a)) [
  | inl e ↦ rw e h
  | inr e ↦ rw e (sort-IsSorted (ps ++ (a ∷ [])) (IsDistinct-snoc a ps e h))
]

-- `Remove` takes its index out of a list that is in order and without repetition, and nothing else.
pub contains-remove :
    (ps : List ℕ) (a b : ℕ)
    → IsSorted ps
    → contains (remove ps a) b ≡ (contains ps b && not (a == b))
unfolding remove
contains-remove [] a b h = refl
contains-remove (p ∷ ps) a b h = ground (arith, contains-remove ps a b h.1, larger-absent p ps h.0)
