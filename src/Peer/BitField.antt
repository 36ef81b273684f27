-- ===== src/Peer/BitField.antt =====
-- `BitField` of peerprotocol/message.go: one bit for each piece, the highest bit of a byte first.
-- The indexes `uint32(i)` of the loops are not cut: they differ only past 2 ^ 32 pieces.
pub mod Laws
pub mod Lists
use go_bt.Prelude.{
  ℕ, zero, suc, ◌+◌, ◌-◌, ◌*◌, ◌/◌, ◌%◌, Bool, true, false, not, Option, none, some, List, [], ◌∷◌,
  ◌++◌, length, get_elem?, set as set_elem, replicate, Bytes, ltb, if◌then◌else◌,
}
use go_bt.Prelude.Bits.{set_bit, clear_bit, test_bit}

-- `NewBitField(pieceNum, set...)`.
unfoldable pub new_bit_field : ℕ → Bool → Bytes
new_bit_field piece_num ones = replicate ((piece_num + 7) / 8) (if ones then 0xff else 0)

-- The place of a piece within its byte, `7 - index%8`.
abbrev pub place : ℕ → ℕ
place index = 7 - index % 8

unfoldable pub can_set : Bytes → ℕ → Bool
can_set bf index = ltb (index / 8) (length bf)

-- The methods test `i < len(bf)` and then index: `get_elem?` is `none` exactly where the test fails.
unfoldable pub set : Bytes → ℕ → Bytes × Bool
set bf index = elim (get_elem? bf (index / 8)) [
  | none ↦ (bf, false)
  | some b ↦ (set_elem bf (index / 8) (set_bit b (place index)), true)
]

unfoldable pub unset : Bytes → ℕ → Bytes × Bool
unset bf index = elim (get_elem? bf (index / 8)) [
  | none ↦ (bf, false)
  | some b ↦ (set_elem bf (index / 8) (clear_bit b (place index)), true)
]

unfoldable pub is_set : Bytes → ℕ → Bool
is_set bf index = elim (get_elem? bf (index / 8)) [
  | none ↦ false
  | some b ↦ test_bit b (place index)
]

-- The loop of `NewBitFieldFromBools`, from index `i` on.
unfoldable pub set_bools : ℕ → List Bool → Bytes → Bytes
set_bools i [] bf = bf
set_bools i (has ∷ bs) bf = set_bools (suc i) bs (if has then (set bf i).0 else bf)

unfoldable pub new_bit_field_from_bools : List Bool → Bytes
new_bit_field_from_bools bs = set_bools 0 bs (new_bit_field (length bs) false)

-- `(b>>byte(i))&1 == 1` is the test of the bit `i`.
unfoldable pub bools : Bytes → List Bool
bools [] = []
bools (b ∷ bf) =
    test_bit b 7
    ∷ test_bit b 6
    ∷ test_bit b 5
    ∷ test_bit b 4
    ∷ test_bit b 3
    ∷ test_bit b 2
    ∷ test_bit b 1
    ∷ test_bit b 0
    ∷ bools bf

-- The loops of `Sets` and `Unsets`: `k` rounds, from index `i` on.
unfoldable pub collect : (ℕ → Bool) → ℕ → ℕ → List ℕ
collect p i zero = []
collect p i (suc k) = let rest = collect p (suc i) k in if p i then i ∷ rest else rest

unfoldable pub sets : Bytes → List ℕ
sets bf = collect (is_set bf) 0 (length bf * 8)

unfoldable pub unsets : Bytes → List ℕ
unsets bf = collect (λ i. not (is_set bf i)) 0 (length bf * 8)
