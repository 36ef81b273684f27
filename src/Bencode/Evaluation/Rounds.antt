-- ===== src/Bencode/Evaluation/Rounds.antt =====
-- The rounds of the decoder (bencode/decode.go), one equation for each way through them.
use mathlib.Core.Option
use go_bt.Prelude.{
  ℕ, suc, ◌≡◌, ◌≢◌, refl, Bool, true, false, Option, none, some, Option-cases, [], ◌∷◌, Bytes,
  arith,
}
use go_bt.Bencode.Number.{is_digit}
use go_bt.Bencode.Value.{Value, no_items, no_fields}
use go_bt.Bencode.Decode.{
  decode_int, decode_string, unordered, decode_list, decode_dict, decode_into,
}
use go_bt.Bencode.Evaluation.{as_text, as_list, as_dict, add_item, add_field}

pub decode_list-nil :
    (read : Bytes → Option (Value × Bytes)) (g : ℕ) → none ≡ decode_list read (suc g) []
unfolding decode_list
decode_list-nil read g = refl

pub decode_dict-nil :
    (read : Bytes → Option (Value × Bytes)) (fail : Bool) (g : ℕ) (last : Option Bytes)
    → none ≡ decode_dict read fail (suc g) last []
unfolding decode_dict
decode_dict-nil read fail g last = refl

pub decode_into-nil : (fail : Bool) (f : ℕ) → none ≡ decode_into fail (suc f) []
unfolding decode_into
decode_into-nil fail f = refl

-- One round of each loop.
pub decode_list-end :
    (read : Bytes → Option (Value × Bytes)) (g c : ℕ) (b : Bytes)
    → c ≡ 101
    → some (no_items, b) ≡ decode_list read (suc g) (c ∷ b)
unfolding decode_list
decode_list-end read g c b e = ground arith

pub decode_list-fail :
    (read : Bytes → Option (Value × Bytes)) (g c : ℕ) (b : Bytes)
    → c ≢ 101
    → read (c ∷ b) ≡ none
    → none ≡ decode_list read (suc g) (c ∷ b)
unfolding decode_list
decode_list-fail read g c b n e = ground arith

pub decode_list-next :
    (read : Bytes → Option (Value × Bytes)) (g c : ℕ) (b : Bytes) (v : Value × Bytes)
    → c ≢ 101
    → read (c ∷ b) ≡ some v
    → Option.map (add_item v.0) (decode_list read g v.1) ≡ decode_list read (suc g) (c ∷ b)
unfolding decode_list
decode_list-next read g c b v n e = ground (arith, Option-cases (decode_list read g v.1))

pub decode_dict-end :
    (read : Bytes → Option (Value × Bytes)) (fail : Bool) (g c : ℕ) (last : Option Bytes)
    (b : Bytes)
    → c ≡ 101
    → some (no_fields, b) ≡ decode_dict read fail (suc g) last (c ∷ b)
unfolding decode_dict
decode_dict-end read fail g c last b e = ground arith

pub decode_dict-bad_key :
    (read : Bytes → Option (Value × Bytes)) (fail : Bool) (g c : ℕ) (last : Option Bytes)
    (b : Bytes)
    → c ≢ 101
    → decode_string (c ∷ b) ≡ none
    → none ≡ decode_dict read fail (suc g) last (c ∷ b)
unfolding decode_dict
decode_dict-bad_key read fail g c last b n e = ground arith

pub decode_dict-unordered :
    (read : Bytes → Option (Value × Bytes)) (fail : Bool) (g c : ℕ) (last : Option Bytes)
    (b : Bytes) (key : Bytes × Bytes)
    → c ≢ 101
    → decode_string (c ∷ b) ≡ some key
    → unordered fail last key.0 ≡ true
    → none ≡ decode_dict read fail (suc g) last (c ∷ b)
unfolding decode_dict
decode_dict-unordered read fail g c last b key n e u = ground arith

pub decode_dict-fail :
    (read : Bytes → Option (Value × Bytes)) (fail : Bool) (g c : ℕ) (last : Option Bytes)
    (b : Bytes) (key : Bytes × Bytes)
    → c ≢ 101
    → decode_string (c ∷ b) ≡ some key
    → unordered fail last key.0 ≡ false
    → read key.1 ≡ none
    → none ≡ decode_dict read fail (suc g) last (c ∷ b)
unfolding decode_dict
decode_dict-fail read fail g c last b key n e u f = ground arith

pub decode_dict-next :
    (read : Bytes → Option (Value × Bytes)) (fail : Bool) (g c : ℕ) (last : Option Bytes)
    (b : Bytes) (key : Bytes × Bytes) (v : Value × Bytes)
    → c ≢ 101
    → decode_string (c ∷ b) ≡ some key
    → unordered fail last key.0 ≡ false
    → read key.1 ≡ some v
    → Option.map (add_field key.0 v.0) (decode_dict read fail g (some key.0) v.1)
      ≡ decode_dict read fail (suc g) last (c ∷ b)
unfolding decode_dict
decode_dict-next read fail g c last b key v n e u f =
    ground (arith, Option-cases (decode_dict read fail g (some key.0) v.1))

-- The first byte of a value tells what is read.
module _ (fail : Bool) (f c : ℕ) (b : Bytes) where
  pub decode_into-int : c ≡ 105 → decode_int b ≡ decode_into fail (suc f) (c ∷ b)
  unfolding decode_into
  decode_into-int e = ground arith

  pub decode_into-digit :
      is_digit c ≡ true
      → Option.map as_text (decode_string (c ∷ b)) ≡ decode_into fail (suc f) (c ∷ b)
  unfolding decode_into
  decode_into-digit e = ground (arith, Option-cases (decode_string (c ∷ b)))

  pub decode_into-list :
      c ≡ 108
      → Option.map as_list (decode_list (decode_into fail f) f b) ≡ decode_into fail (suc f) (c ∷ b)
  unfolding decode_into
  decode_into-list e = ground (arith, Option-cases (decode_list (decode_into fail f) f b))

  pub decode_into-dict :
      c ≡ 100
      → Option.map as_dict (decode_dict (decode_into fail f) fail f none b)
        ≡ decode_into fail (suc f) (c ∷ b)
  unfolding decode_into
  decode_into-dict e = ground (arith, Option-cases (decode_dict (decode_into fail f) fail f none b))

  pub decode_into-unknown :
      c ≢ 105 → is_digit c ≡ false → c ≢ 108 → c ≢ 100 → none ≡ decode_into fail (suc f) (c ∷ b)
  unfolding decode_into
  decode_into-unknown i d l m = ground arith
