-- ===== src/Peer/BitField/Lists.antt =====
-- The conversions of a `BitField` (peerprotocol/message.go) from and to lists.
use go_bt.Prelude.{
  ℕ, zero, suc, ◌+◌, ◌*◌, ◌/◌, ◌<◌, ◌≡◌, ◌≢◌, refl, ap, ap₂, sym, ◌∙◌, Bool, true, false, not, ◌&&◌,
  ◌||◌, none, some, List, [], ◌∷◌, length, get_elem?, contains, set as set_elem, replicate,
  length-replicate, length-set, Bytes, IsByte, All, All-get_elem?, All-set, All-replicate,
  get_elem?-lt, ltb, leb, lt→ltb, ◌==◌, Option-cases, inl, inr, if◌then◌else◌, arith,
}
use native.Mathlib.Decide.{ℕ_discrete}
use go_bt.Prelude.Bits.{set_bit, test_bit, test_bit_extremes, set_bit-lt}
use go_bt.Peer.BitField.{
  new_bit_field, place, can_set, set, is_set, set_bools, new_bit_field_from_bools, bools, collect,
  sets, unsets,
}
use go_bt.Peer.BitField.Laws.{is_set-set, place_lt}

collect_lem :
    (p : ℕ → Bool) (i k j : ℕ) → contains (collect p i k) j ≡ (leb i j && ltb j (i + k) && p j)
unfolding collect
collect_lem p i zero j = ground arith
collect_lem p i (suc k) j = elim (ℕ_discrete i j) [
  | yes e ↦ ground (arith, collect_lem p (suc i) k j, ap p e)
  | no e ↦ ground (arith, collect_lem p (suc i) k j)
]

is_set-lt : (bf : Bytes) (j : ℕ) → is_set bf j ≡ true → j < length bf * 8
unfolding is_set
is_set-lt bf j h = elim (Option-cases (get_elem? bf (j / 8))) [
  | inl e ↦ ground arith
  | inr (b, e) ↦ omega (arith, get_elem?-lt bf (j / 8) e)
]

-- `Sets` lists exactly the pieces whose bit is set, and `Unsets` exactly those within the field
-- whose bit is not.
pub contains-sets :
    (bf : Bytes) (j : ℕ)
    → (contains (sets bf) j ≡ is_set bf j)
      × (contains (unsets bf) j ≡ (ltb j (length bf * 8) && not (is_set bf j)))
unfolding sets unsets
contains-sets bf j = (
  ground (arith, collect_lem (is_set bf) 0 (length bf * 8) j, is_set-lt bf j),
  ground (arith, collect_lem (λ i. not (is_set bf i)) 0 (length bf * 8) j, is_set-lt bf j),
)

abbrev bit_at : Bytes → ℕ → ℕ → Bool
bit_at bf k p = elim (get_elem? bf k) [ none ↦ false | some x ↦ test_bit x p ]

is_set-shift : (b : ℕ) (bf : Bytes) (j : ℕ) → is_set (b ∷ bf) (8 + j) ≡ is_set bf j
unfolding is_set
is_set-shift b bf j =
    let e : (8 + j) / 8 ≡ suc (j / 8) = omega arith in
    let f : place (8 + j) ≡ place j = omega arith in ap₂ (λ (k p : ℕ). bit_at (b ∷ bf) k p) e f

-- `Bools` gives the bits in the order of the pieces.
pub get_elem?-bools :
    (bf : Bytes) (j : ℕ) → j < length bf * 8 → get_elem? (bools bf) j ≡ some (is_set bf j)
unfolding bools is_set
get_elem?-bools [] j h = absurd (omega arith)
get_elem?-bools (b ∷ bf) zero h = refl
get_elem?-bools (b ∷ bf) (suc zero) h = refl
get_elem?-bools (b ∷ bf) (suc (suc zero)) h = refl
get_elem?-bools (b ∷ bf) (suc (suc (suc zero))) h = refl
get_elem?-bools (b ∷ bf) (suc (suc (suc (suc zero)))) h = refl
get_elem?-bools (b ∷ bf) (suc (suc (suc (suc (suc zero))))) h = refl
get_elem?-bools (b ∷ bf) (suc (suc (suc (suc (suc (suc zero)))))) h = refl
get_elem?-bools (b ∷ bf) (suc (suc (suc (suc (suc (suc (suc zero))))))) h = refl
get_elem?-bools (b ∷ bf) (suc (suc (suc (suc (suc (suc (suc (suc j)))))))) h =
    let e : suc (suc (suc (suc (suc (suc (suc (suc j))))))) ≡ 8 + j = omega arith in
    get_elem?-bools bf j (omega arith)
    ∙ ap some (sym (is_set-shift b bf j) ∙ ap (is_set (b ∷ bf)) (sym e))

set_absent : (bf : Bytes) (i : ℕ) → get_elem? bf (i / 8) ≡ none → (set bf i).0 ≡ bf
unfolding set
set_absent bf i e = ground arith

set_present :
    (bf : Bytes) (i b : ℕ)
    → get_elem? bf (i / 8) ≡ some b
    → (set bf i).0 ≡ set_elem bf (i / 8) (set_bit b (place i))
unfolding set
set_present bf i b e = ground arith

set-keeps :
    (bf : Bytes) (i : ℕ)
    → All IsByte bf
    → All IsByte (set bf i).0 × (length (set bf i).0 ≡ length bf)
set-keeps bf i h = elim (Option-cases (get_elem? bf (i / 8))) [
  | inl e ↦ rw (set_absent bf i e) (h, refl)
  | inr (b, e) ↦ rw (set_present bf i b e) (
    All-set IsByte bf (i / 8) (set_bit b (place i)) h
        (set_bit-lt b (place i) (All-get_elem? IsByte bf (i / 8) h e) (place_lt i)),
    length-set bf (i / 8) (set_bit b (place i)),
  )
]

-- The entry of `j` in a list of flags that begins at `i`.
abbrev flag : ℕ → List Bool → ℕ → Bool
flag i [] j = false
flag i (has ∷ bs) j = if i == j then has else flag (suc i) bs j

flag-below : (i : ℕ) (bs : List Bool) (j : ℕ) → j < i → flag i bs j ≡ false
flag-below i [] j h = refl
flag-below i (has ∷ bs) j h = ground (arith, flag-below (suc i) bs j)

can_set_of_length : (bf bf' : Bytes) (j : ℕ) → length bf' ≡ length bf → can_set bf' j ≡ can_set bf j
unfolding can_set
can_set_of_length bf bf' j h = rw h refl

is_set→can_set : (bf : Bytes) (j : ℕ) → is_set bf j ≡ true → can_set bf j ≡ true
unfolding can_set
is_set→can_set bf j h = lt→ltb _ _ (omega (arith, is_set-lt bf j h))

flag_here : (i : ℕ) (has : Bool) (bs : List Bool) (j : ℕ) → i ≡ j → flag i (has ∷ bs) j ≡ has
flag_here i has bs j e = ground arith

flag_there :
    (i : ℕ) (has : Bool) (bs : List Bool) (j : ℕ) → i ≢ j → flag i (has ∷ bs) j ≡ flag (suc i) bs j
flag_there i has bs j e = ground arith

same_can_set : (bf : Bytes) (i j : ℕ) → i ≡ j → can_set bf i ≡ can_set bf j
same_can_set bf i j e = ap (can_set bf) e

is_set-set_bools :
    (i : ℕ) (bs : List Bool) (bf : Bytes) (j : ℕ)
    → All IsByte bf
    → is_set (set_bools i bs bf) j ≡ (is_set bf j || (flag i bs j && can_set bf j))
unfolding set_bools
is_set-set_bools i [] bf j h = ground arith
is_set-set_bools i (false ∷ bs) bf j h =
    ground (arith, is_set-set_bools (suc i) bs bf j h, flag-below (suc i) bs i)
is_set-set_bools i (true ∷ bs) bf j h =
    let (bytes, size) = set-keeps bf i h in
    is_set-set_bools (suc i) bs (set bf i).0 j bytes ∙ elim (ℕ_discrete i j) [
      | yes e ↦ rw (flag_here i true bs j e) (
          ground (
            arith,
            is_set-set bf i j h,
            same_can_set bf i j e,
            flag-below (suc i) bs j,
            is_set→can_set bf j,
          ))
      | no e ↦
          rw (flag_there i true bs j e)
            (ground (arith, is_set-set bf i j h, can_set_of_length bf (set bf i).0 j size))
    ]

flag-get :
    (bs : List Bool) (i j : ℕ) (has : Bool) → get_elem? bs j ≡ some has → flag i bs (i + j) ≡ has
flag-get [] i j has e = cc
flag-get (x ∷ bs) i zero has e = ground arith
flag-get (x ∷ bs) i (suc j) has e = ground (arith, flag-get bs (suc i) j has e)

is_set-zeros : (n j : ℕ) → is_set (replicate n 0) j ≡ false
unfolding is_set
is_set-zeros n j = elim (Option-cases (get_elem? (replicate {A = ℕ} n 0) (j / 8))) [
  | inl e ↦ ground arith
  | inr (b, e) ↦
      let z : b ≡ 0 =
        All-get_elem? (λ (x : ℕ). x ≡ 0) (replicate {A = ℕ} n 0) (j / 8)
          (All-replicate (λ x. x ≡ 0) n 0 refl) e in
      ground (arith, ap (λ x. test_bit x (place j)) z, (test_bit_extremes (place j) (place_lt j)).0)
]

can_set-new : (n j : ℕ) (ones : Bool) → j < n → can_set (new_bit_field n ones) j ≡ true
unfolding can_set new_bit_field
can_set-new n j ones h =
    lt→ltb _ _ (omega (arith, length-replicate {A = ℕ} ((n + 7) / 8) (if ones then 0xff else 0)))

-- `NewBitFieldFromBools` sets exactly the pieces whose entry is true.
pub is_set-from_bools :
    (bs : List Bool) (j : ℕ) (has : Bool)
    → get_elem? bs j ≡ some has
    → is_set (new_bit_field_from_bools bs) j ≡ has
unfolding new_bit_field_from_bools new_bit_field
is_set-from_bools bs j has e =
    let zero_add : 0 + j ≡ j = omega arith in
    is_set-set_bools 0 bs _ j (All-replicate IsByte _ 0 (omega arith))
    ∙ ground (
      arith,
      flag-get bs 0 j has e,
      ap (flag 0 bs) zero_add,
      is_set-zeros ((length bs + 7) / 8) j,
      can_set-new (length bs) j false (get_elem?-lt bs j e),
    )
