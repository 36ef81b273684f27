-- ===== src/Bencode/Decode.antt =====
-- The decoder (bencode/decode.go) into an `interface{}`, on the bytes that are left to read. An error
-- is `none`, and so is a loop that is out of fuel, which the rules of Evaluation do without. The
-- position that `BytesParsed` gives is the number of bytes that are gone.
pub mod Fuel
pub mod Strings
use go_bt.Prelude.{
  ℕ, zero, suc, ◌^◌, Bool, true, false, not, ◌&&◌, Option, none, some, List, [], ◌∷◌, ◌++◌, length,
  take, drop, Bytes, ltb, ◌==◌, bytes_beq, if◌then◌else◌,
}
use go_bt.Bencode.Number.{ℤ, pos, negsuc, is_digit, parse_int}
use go_bt.Bencode.Value.{
  Value, integer, text, list, dict, Items, no_items, item, Fields, no_fields, field, bytes_ltb,
  has_key,
}

-- `readBytes(delim)`: the line without its delimiter, and what is left.
unfoldable pub read_bytes : ℕ → Bytes → Option (Bytes × Bytes)
read_bytes delim [] = none
read_bytes delim (c ∷ b) =
    let more = read_bytes delim b in
    if c == delim then some ([], b) else elim more [ none ↦ none | some r ↦ some (c ∷ r.0, r.1) ]

-- `decodeInt` after the 'i'.
unfoldable pub decode_int : Bytes → Option (Value × Bytes)
decode_int b = elim (read_bytes 101 b) [
  | none ↦ none
  | some r ↦ elim (parse_int (2 ^ 63) r.0) [ none ↦ none | some i ↦ some (integer i, r.1) ]
]

-- `decodeString`: the string and what is left.
unfoldable pub decode_string : Bytes → Option (Bytes × Bytes)
decode_string b = elim (read_bytes 58 b) [
  | none ↦ none
  | some r ↦ elim (parse_int (2 ^ 31) r.0) [
    | none ↦ none
    | some (negsuc n) ↦ none
    | some (pos l) ↦ if ltb (length r.1) l then none else some (take l r.1, drop l r.1)
  ]
]

-- `SetMapIndex` in a loop: of the values of a key, the last one stays.
unfoldable pub to_map : Fields → Fields
to_map no_fields = no_fields
to_map (field k v fs) = let rest = to_map fs in if has_key k fs then rest else field k v rest

-- `SetFailOnUnorderedKeys(true)`: a key that is smaller than the one before it fails.
unfoldable pub unordered : Bool → Option Bytes → Bytes → Bool
unordered fail none key = false
unordered fail (some last) key = fail && bytes_ltb key last

-- The loops of `decodeList` and `decodeDict` up to the closing 'e'; `read` decodes a value.
unfoldable pub decode_list : (Bytes → Option (Value × Bytes)) → ℕ → Bytes → Option (Items × Bytes)
decode_list read zero b = none
decode_list read (suc fuel) [] = none
decode_list read (suc fuel) (c ∷ b) = if c == 101 then some (no_items, b) else elim (read (c ∷ b)) [
  | none ↦ none
  | some r ↦ elim (decode_list read fuel r.1) [ none ↦ none | some rs ↦ some (item r.0 rs.0, rs.1) ]
]

unfoldable pub decode_dict :
    (Bytes → Option (Value × Bytes)) → Bool → ℕ → Option Bytes → Bytes → Option (Fields × Bytes)
decode_dict read fail zero last b = none
decode_dict read fail (suc fuel) last [] = none
decode_dict read fail (suc fuel) last (c ∷ b) =
    if c == 101 then some (no_fields, b) else elim (decode_string (c ∷ b)) [
      | none ↦ none
      | some key ↦ if unordered fail last key.0 then none else elim (read key.1) [
        | none ↦ none
        | some r ↦ elim (decode_dict read fail fuel (some key.0) r.1) [
          | none ↦ none
          | some rs ↦ some (field key.0 r.0 rs.0, rs.1)
        ]
      ]
    ]

-- `decodeInto` of an interface.
unfoldable pub decode_into : Bool → ℕ → Bytes → Option (Value × Bytes)
decode_into fail zero b = none
decode_into fail (suc fuel) [] = none
decode_into fail (suc fuel) (c ∷ b) =
    if c == 105
    then decode_int b
    else if is_digit c
    then elim (decode_string (c ∷ b)) [ none ↦ none | some r ↦ some (text r.0, r.1) ]
    else if c == 108
    then elim (decode_list (decode_into fail fuel) fuel b) [
      | none ↦ none
      | some r ↦ some (list r.0, r.1)
    ]
    else if c == 100
    then elim (decode_dict (decode_into fail fuel) fail fuel none b) [
      | none ↦ none
      | some r ↦ some (dict (to_map r.0), r.1)
    ]
    else none

-- `Decode` of the bytes: fuel of one more than their number is enough.
unfoldable pub decode : Bool → Bytes → Option (Value × Bytes)
decode fail b = decode_into fail (suc (length b)) b
