-- ===== src/Bencode/Raw.antt =====
-- The decoder into a `RawMessage` (bencode/decode.go): the buffer that it fills, and what is left.
pub mod Exact
pub mod Accepts
use go_bt.Prelude.{
  ℕ, zero, suc, ◌^◌, Bool, true, false, Option, none, some, List, [], ◌∷◌, ◌++◌, length, take, drop,
  Bytes, ltb, ◌==◌, if◌then◌else◌,
}
use go_bt.Bencode.Number.{ℤ, pos, negsuc, is_digit, parse_int}
use go_bt.Bencode.Decode.{read_bytes}

-- `decodeInt` after the 'i': the digits are not parsed.
unfoldable pub raw_int : Bytes → Option (Bytes × Bytes)
raw_int b = elim (read_bytes 101 b) [ none ↦ none | some r ↦ some (105 ∷ (r.0 ++ (101 ∷ [])), r.1) ]

-- `decodeString`.
unfoldable pub raw_string : Bytes → Option (Bytes × Bytes)
raw_string b = elim (read_bytes 58 b) [
  | none ↦ none
  | some r ↦ elim (parse_int (2 ^ 31) r.0) [
    | none ↦ none
    | some (negsuc n) ↦ none
    | some (pos l) ↦
        if ltb (length r.1) l then none else some (r.0 ++ (58 ∷ take l r.1), drop l r.1)
  ]
]

-- The loops of `decodeList` and `decodeDict`, with the closing 'e' in the buffer.
unfoldable pub raw_list : (Bytes → Option (Bytes × Bytes)) → ℕ → Bytes → Option (Bytes × Bytes)
raw_list read zero b = none
raw_list read (suc fuel) [] = none
raw_list read (suc fuel) (c ∷ b) = if c == 101 then some (101 ∷ [], b) else elim (read (c ∷ b)) [
  | none ↦ none
  | some r ↦ elim (raw_list read fuel r.1) [ none ↦ none | some rs ↦ some (r.0 ++ rs.0, rs.1) ]
]

unfoldable pub raw_dict : (Bytes → Option (Bytes × Bytes)) → ℕ → Bytes → Option (Bytes × Bytes)
raw_dict read zero b = none
raw_dict read (suc fuel) [] = none
raw_dict read (suc fuel) (c ∷ b) =
    if c == 101 then some (101 ∷ [], b) else elim (raw_string (c ∷ b)) [
      | none ↦ none
      | some key ↦ elim (read key.1) [
        | none ↦ none
        | some r ↦ elim (raw_dict read fuel r.1) [
          | none ↦ none
          | some rs ↦ some (key.0 ++ (r.0 ++ rs.0), rs.1)
        ]
      ]
    ]

-- `decodeInto` with `raw` set.
unfoldable pub raw_into : ℕ → Bytes → Option (Bytes × Bytes)
raw_into zero b = none
raw_into (suc fuel) [] = none
raw_into (suc fuel) (c ∷ b) =
    if c == 105
    then raw_int b
    else if is_digit c
    then raw_string (c ∷ b)
    else if c == 108
    then elim (raw_list (raw_into fuel) fuel b) [ none ↦ none | some r ↦ some (108 ∷ r.0, r.1) ]
    else if c == 100
    then elim (raw_dict (raw_into fuel) fuel b) [ none ↦ none | some r ↦ some (100 ∷ r.0, r.1) ]
    else none
