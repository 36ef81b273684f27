-- ===== src/Peer/BitField/Laws.antt =====
-- What the operations on a `BitField` (peerprotocol/message.go) do to each piece's bit.
use go_bt.Prelude.{
  ℕ, ◌/◌, ◌<◌, ◌≡◌, ◌≢◌, ◌↔◌, refl, ◌∙◌, Bool, true, false, none, some, length, get_elem?,
  set as set_elem, Bytes, IsByte, All, All-get_elem?, get_elem?-set_self, get_elem?-set_ne,
  get_elem?-lt, get_elem?-some, ◌==◌, Option-cases, inl, inr, if◌then◌else◌, arith,
}
use native.Mathlib.Decide.{ℕ_discrete}
use go_bt.Prelude.Bits.{set_bit, clear_bit, test_bit, test_bit-set_bit, test_bit-clear_bit}
use go_bt.Peer.BitField.{place, can_set, set, unset, is_set}

-- Where two pieces share a byte, they are the same piece exactly when they share the place.
place_eq : (i j : ℕ) → i / 8 ≡ j / 8 → (place i == place j) ≡ (i == j)
place_eq i j h = ground arith

-- A write to one byte, seen through a piece.
is_set-set_elem_same :
    (bf : Bytes) (i j b v : ℕ)
    → get_elem? bf (i / 8) ≡ some b
    → i / 8 ≡ j / 8
    → is_set (set_elem bf (i / 8) v) j ≡ test_bit v (place j)
unfolding is_set
is_set-set_elem_same bf i j b v e p =
    ground (arith, get_elem?-set_self bf (i / 8) v (get_elem?-lt bf (i / 8) e))

is_set-set_elem_other :
    (bf : Bytes) (i j v : ℕ) → i / 8 ≢ j / 8 → is_set (set_elem bf (i / 8) v) j ≡ is_set bf j
unfolding is_set
is_set-set_elem_other bf i j v p = ground (arith, get_elem?-set_ne bf (i / 8) (j / 8) v p)

is_set_at :
    (bf : Bytes) (i j b : ℕ)
    → get_elem? bf (i / 8) ≡ some b
    → i / 8 ≡ j / 8
    → is_set bf j ≡ test_bit b (place j)
unfolding is_set
is_set_at bf i j b e p = ground arith

pub place_lt : (i : ℕ) → place i < 8
place_lt i = omega arith

can_set_iff : (bf : Bytes) (i : ℕ) → (can_set bf i ≡ true) ↔ (i / 8 < length bf)
unfolding can_set
can_set_iff bf i = ground arith

none-can_set : (bf : Bytes) (i : ℕ) → get_elem? bf (i / 8) ≡ none → can_set bf i ≡ false
unfolding can_set
none-can_set bf i e = ground (arith, get_elem?-some bf (i / 8))

some-can_set : (bf : Bytes) (i : ℕ) {b : ℕ} → get_elem? bf (i / 8) ≡ some b → can_set bf i ≡ true
some-can_set bf i e = (can_set_iff bf i).1 (get_elem?-lt bf (i / 8) e)

pub is_set-none : (bf : Bytes) (i : ℕ) → get_elem? bf (i / 8) ≡ none → is_set bf i ≡ false
unfolding is_set
is_set-none bf i e = ground arith

module _ (bf : Bytes) (i j : ℕ) (h : All IsByte bf) where
  -- What a write of `v` in place of the byte of `i` does to the bit of `j`, where it is known what
  -- it does to the places of that byte.
  write_law :
      (b v : ℕ) (new : Bool)
      → get_elem? bf (i / 8) ≡ some b
      → test_bit v (place j) ≡ (if place i == place j then new else test_bit b (place j))
      → is_set (set_elem bf (i / 8) v) j ≡ (if i == j then new else is_set bf j)
  write_law b v new e law = elim (ℕ_discrete (i / 8) (j / 8)) [
    | yes p ↦
        is_set-set_elem_same bf i j b v e p ∙ rw (law, place_eq i j p, is_set_at bf i j b e p) refl
    | no p ↦ is_set-set_elem_other bf i j v p ∙ ground arith
  ]

  -- After `Set(i)` on bytes, exactly the bit of `i` is set in addition; it is set if and only if the
  -- field has room for it.
  pub is_set-set : is_set (set bf i).0 j ≡ (if i == j then can_set bf i else is_set bf j)
  unfolding set
  is_set-set = elim (Option-cases (get_elem? bf (i / 8))) [
    | inl e ↦ ground (arith, none-can_set bf i e, is_set-none bf i e)
    | inr (b, e) ↦ ground (
      arith,
      some-can_set bf i e,
      write_law b (set_bit b (place i)) true e (
          test_bit-set_bit b (place i) (place j) (All-get_elem? IsByte bf (i / 8) h e) (place_lt i)
            (place_lt j)),
    )
  ]

  -- After `Unset(i)` on bytes the bit of `i` is clear, and every other is as before.
  pub is_set-unset : is_set (unset bf i).0 j ≡ (if i == j then false else is_set bf j)
  unfolding unset
  is_set-unset = elim (Option-cases (get_elem? bf (i / 8))) [
    | inl e ↦ ground (arith, is_set-none bf i e)
    | inr (b, e) ↦ ground (
      arith,
      write_law b (clear_bit b (place i)) false e (
          test_bit-clear_bit b (place i) (place j) (All-get_elem? IsByte bf (i / 8) h e)
            (place_lt i) (place_lt j)),
    )
  ]
