-- ===== src/Bencode/Evaluation.antt =====
-- The decoder (bencode/decode.go) as rules without fuel: `Reads fail b r` says that the call of
-- `decodeInto` on the bytes `b` returns, with the result `r`, an error being `none`. A loop that does
-- not end has no derivation.
pub mod Rounds
pub mod Complete
pub mod Sound
use mathlib.Core.Option
use go_bt.Prelude.{ℕ, ◌≡◌, ◌≢◌, Bool, true, false, Option, none, some, [], ◌∷◌, Bytes}
use go_bt.Bencode.Number.{is_digit}
use go_bt.Bencode.Value.{Value, text, list, dict, Items, no_items, item, Fields, no_fields, field}
use go_bt.Bencode.Decode.{decode_int, decode_string, to_map, unordered}

abbrev pub as_text : Bytes × Bytes → Value × Bytes
as_text r = (text r.0, r.1)

abbrev pub as_list : Items × Bytes → Value × Bytes
as_list r = (list r.0, r.1)

abbrev pub as_dict : Fields × Bytes → Value × Bytes
as_dict r = (dict (to_map r.0), r.1)

abbrev pub add_item : Value → Items × Bytes → Items × Bytes
add_item v r = (item v r.0, r.1)

abbrev pub add_field : Bytes → Value → Fields × Bytes → Fields × Bytes
add_field key v r = (field key v r.0, r.1)

mutual
  pub data Reads (fail : Bool) : Bytes → Option (Value × Bytes) → Type 0 where
    reads_end : Reads fail [] none
    reads_int : {c : ℕ} {b : Bytes} → c ≡ 105 → Reads fail (c ∷ b) (decode_int b)
    reads_text :
        {c : ℕ} {b : Bytes}
        → is_digit c ≡ true
        → Reads fail (c ∷ b) (Option.map as_text (decode_string (c ∷ b)))
    reads_list :
        {c : ℕ} {b : Bytes} {r : Option (Items × Bytes)}
        → c ≡ 108
        → ReadsItems fail b r
        → Reads fail (c ∷ b) (Option.map as_list r)
    reads_dict :
        {c : ℕ} {b : Bytes} {r : Option (Fields × Bytes)}
        → c ≡ 100
        → ReadsFields fail none b r
        → Reads fail (c ∷ b) (Option.map as_dict r)
    reads_unknown :
        {c : ℕ} {b : Bytes}
        → c ≢ 105
        → is_digit c ≡ false
        → c ≢ 108
        → c ≢ 100
        → Reads fail (c ∷ b) none

  -- The loop of `decodeList`, from one of its rounds on.
  pub data ReadsItems (fail : Bool) : Bytes → Option (Items × Bytes) → Type 0 where
    items_cut : ReadsItems fail [] none
    items_end : {c : ℕ} {b : Bytes} → c ≡ 101 → ReadsItems fail (c ∷ b) (some (no_items, b))
    items_fail :
        {c : ℕ} {b : Bytes} → c ≢ 101 → Reads fail (c ∷ b) none → ReadsItems fail (c ∷ b) none
    items_next :
        {c : ℕ} {b : Bytes} {v : Value × Bytes} {r : Option (Items × Bytes)}
        → c ≢ 101
        → Reads fail (c ∷ b) (some v)
        → ReadsItems fail v.1 r
        → ReadsItems fail (c ∷ b) (Option.map (add_item v.0) r)

  -- The loop of `decodeDict`, from one of its rounds on, after the key `last`.
  pub data ReadsFields (fail : Bool) : Option Bytes → Bytes → Option (Fields × Bytes) → Type 0 where
    fields_cut : {last : Option Bytes} → ReadsFields fail last [] none
    fields_end :
        {last : Option Bytes} {c : ℕ} {b : Bytes}
        → c ≡ 101
        → ReadsFields fail last (c ∷ b) (some (no_fields, b))
    fields_bad_key :
        {last : Option Bytes} {c : ℕ} {b : Bytes}
        → c ≢ 101
        → decode_string (c ∷ b) ≡ none
        → ReadsFields fail last (c ∷ b) none
    fields_unordered :
        {last : Option Bytes} {c : ℕ} {b : Bytes} {key : Bytes × Bytes}
        → c ≢ 101
        → decode_string (c ∷ b) ≡ some key
        → unordered fail last key.0 ≡ true
        → ReadsFields fail last (c ∷ b) none
    fields_fail :
        {last : Option Bytes} {c : ℕ} {b : Bytes} {key : Bytes × Bytes}
        → c ≢ 101
        → decode_string (c ∷ b) ≡ some key
        → unordered fail last key.0 ≡ false
        → Reads fail key.1 none
        → ReadsFields fail last (c ∷ b) none
    fields_next :
        {last : Option Bytes} {c : ℕ} {b : Bytes} {key : Bytes × Bytes} {v : Value × Bytes}
        {r : Option (Fields × Bytes)}
        → c ≢ 101
        → decode_string (c ∷ b) ≡ some key
        → unordered fail last key.0 ≡ false
        → Reads fail key.1 (some v)
        → ReadsFields fail (some key.0) v.1 r
        → ReadsFields fail last (c ∷ b) (Option.map (add_field key.0 v.0) r)
