-- ===== src/Bencode/RoundTrip.antt =====
-- What the encoder writes, the decoder reads back.
use go_bt.Prelude.{
  ℕ, zero, suc, ◌<◌, ◌≡◌, ◌≢◌, refl, ap, sym, subst, ◌∙◌, Bool, true, false, Option, none, some, [],
  ◌∷◌, ◌++◌, append_assoc, length, length-append, Bytes, ◌==◌, arith,
}
use go_bt.Bencode.Number.{ℤ, format_int, is_digit}
use go_bt.Bencode.Number.RoundTrip.{IsDigit, format_nat-head}
use go_bt.Bencode.Value.{
  Value, integer, text, list, dict, Items, no_items, item, Fields, no_fields, field, Below, IsValue,
  AreItems, AreFields,
}
use go_bt.Bencode.Encode.{
  encode_text, encode_value, encode_items, entries, sort_entries, write_entries,
}
use go_bt.Bencode.Decode.{
  decode_int, decode_string, unordered, decode_list, decode_dict, decode_into, decode,
}
use go_bt.Bencode.Decode.Strings.{decode_int-format, decode_string-encode}
use go_bt.Bencode.Order.{bytes_ltb_asym, to_map-AreFields, sort_entries-AreFields}

encode_text-head : (s : Bytes) → (c : ℕ) × (t : Bytes) × (encode_text s ≡ c ∷ t) × IsDigit c
unfolding encode_text
encode_text-head s =
    let (c, t, e, ds) = format_nat-head (length s) in
    (c, t ++ (58 ∷ s), ap (λ b. b ++ (58 ∷ s)) e, ds.0)

-- No value is written with the closing 'e' in front.
encode_value-head : (v : Value) → (c : ℕ) × (t : Bytes) × (encode_value v ≡ c ∷ t) × (c ≢ 101)
unfolding encode_value
encode_value-head (integer i) = (105, format_int i ++ (101 ∷ []), refl, omega arith)
encode_value-head (text s) = let (c, t, e, d) = encode_text-head s in (c, t, e, omega (arith, d))
encode_value-head (list vs) = (108, encode_items vs ++ (101 ∷ []), refl, omega arith)
encode_value-head (dict fs) =
    (100, write_entries (sort_entries (entries fs)) ++ (101 ∷ []), refl, omega arith)

decode_list-step :
    (read : Bytes → Option (Value × Bytes)) (fuel c : ℕ) (b t r rest : Bytes) (v : Value)
    (vs : Items)
    → b ≡ c ∷ t
    → c ≢ 101
    → read b ≡ some (v, r)
    → decode_list read fuel r ≡ some (vs, rest)
    → decode_list read (suc fuel) b ≡ some (item v vs, rest)
unfolding decode_list
decode_list-step read fuel c b t r rest v vs s h e f =
    let open_end : (c == 101) ≡ false = ground arith in
    let e' = subst (λ d. read d ≡ some (v, r)) s e in
    subst (λ d. decode_list read (suc fuel) d ≡ some (item v vs, rest)) (sym s)
      (rw (decode_list, open_end, e', f) refl)

decode_dict-step :
    (read : Bytes → Option (Value × Bytes)) (fail : Bool) (fuel : ℕ) (last : Option Bytes) (c : ℕ)
    (b t key b2 r rest : Bytes) (v : Value) (fs : Fields)
    → b ≡ c ∷ t
    → c ≢ 101
    → decode_string b ≡ some (key, b2)
    → unordered fail last key ≡ false
    → read b2 ≡ some (v, r)
    → decode_dict read fail fuel (some key) r ≡ some (fs, rest)
    → decode_dict read fail (suc fuel) last b ≡ some (field key v fs, rest)
unfolding decode_dict
decode_dict-step read fail fuel last c b t key b2 r rest v fs s h e o f g =
    let open_end : (c == 101) ≡ false = ground arith in
    let e' = subst (λ d. decode_string d ≡ some (key, b2)) s e in
    subst (λ d. decode_dict read fail (suc fuel) last d ≡ some (field key v fs, rest)) (sym s)
      (rw (decode_dict, open_end, e', o, f, g) refl)

decode_into-text :
    (fail : Bool) (fuel c : ℕ) (b t rest str : Bytes)
    → b ≡ c ∷ t
    → IsDigit c
    → decode_string b ≡ some (str, rest)
    → decode_into fail (suc fuel) b ≡ some (text str, rest)
unfolding decode_into
decode_into-text fail fuel c b t rest str s h e =
    let e' = subst (λ d. decode_string d ≡ some (str, rest)) s e in
    let not_int : (c == 105) ≡ false = ground arith in
    let digit : is_digit c ≡ true = ground arith in
    subst (λ d. decode_into fail (suc fuel) d ≡ some (text str, rest)) (sym s)
      (rw (decode_into, not_int, digit, e') refl)

-- The entries come after the last key.
abbrev After : Option Bytes → Fields → Type 0
After none fs = Unit
After (some last) fs = Below last fs

unordered-After :
    (fail : Bool) (last : Option Bytes) (k : Bytes) (v : Value) (fs : Fields)
    → After last (field k v fs)
    → unordered fail last k ≡ false
unfolding unordered
unordered-After fail none k v fs h = refl
unordered-After true (some last) k v fs h = bytes_ltb_asym last k h.0
unordered-After false (some last) k v fs h = refl

module _ (fail : Bool) where
  abbrev Reads : Value → Type 0
  Reads v =
      IsValue v
      → (rest : Bytes) (f : ℕ) → length (encode_value v) < f
      → decode_into fail f (encode_value v ++ rest) ≡ some (v, rest)

  abbrev ReadsItems : Items → Type 0
  ReadsItems vs =
      AreItems vs
      → (rest : Bytes) (f g : ℕ) → length (encode_items vs) < f
      → length (encode_items vs) < g
      → decode_list (decode_into fail f) g (encode_items vs ++ (101 ∷ rest)) ≡ some (vs, rest)

  abbrev ReadsFields : Fields → Type 0
  ReadsFields fs =
      AreFields fs
      → (rest : Bytes) (f g : ℕ) (last : Option Bytes) → After last fs
      → length (write_entries (entries fs)) < f
      → length (write_entries (entries fs)) < g
      → decode_dict (decode_into fail f) fail g last (write_entries (entries fs) ++ (101 ∷ rest))
        ≡ some (fs, rest)

  read-text : (s : Bytes) → Reads (text s)
  unfolding decode_into encode_value
  read-text s h rest zero n = absurd (omega (arith, n))
  read-text s h rest (suc f) n =
      let (c, t, e, d) = encode_text-head s in
      decode_into-text fail f c (encode_text s ++ rest) (t ++ rest) rest s (ap (λ b. b ++ rest) e) d
        (decode_string-encode s rest h)

  read-integer : (i : ℤ) → Reads (integer i)
  unfolding decode_into encode_value
  read-integer i h rest zero n = absurd (omega (arith, n))
  read-integer i h rest (suc f) n =
      ap decode_int (append_assoc (format_int i) (101 ∷ []) rest) ∙ decode_int-format i rest h

  read-list : (vs : Items) → ReadsItems vs → Reads (list vs)
  unfolding decode_into encode_value
  read-list vs ih h rest zero n = absurd (omega (arith, n))
  read-list vs ih h rest (suc f) n =
      let whole = append_assoc (encode_items vs) (101 ∷ []) rest in
      let size = length-append (encode_items vs) (101 ∷ []) in
      let items =
        ap (decode_list (decode_into fail f) f) whole ∙ ih h rest f f (omega arith) (omega arith) in
      rw items refl

  read-dict : (fs : Fields) → ReadsFields fs → Reads (dict fs)
  unfolding decode_into encode_value
  read-dict fs ih h rest zero n = absurd (omega (arith, n))
  read-dict fs ih h rest (suc f) n =
      let written : write_entries (sort_entries (entries fs)) ≡ write_entries (entries fs) =
        ap write_entries (sort_entries-AreFields fs h) in
      let whole = append_assoc (write_entries (sort_entries (entries fs))) (101 ∷ []) rest in
      let size = length-append (write_entries (sort_entries (entries fs))) (101 ∷ []) in
      let shorter : length (write_entries (entries fs)) < f =
        subst (λ b. length b < f) written (omega arith) in
      let fields =
        ap (decode_dict (decode_into fail f) fail f none)
          (whole ∙ ap (λ b. b ++ (101 ∷ rest)) written)
        ∙ ih h rest f f none tt shorter shorter in
      rw (fields, to_map-AreFields fs h) refl

  no-items : ReadsItems no_items
  unfolding decode_list encode_value
  no-items h rest f zero m n = absurd (omega (arith, n))
  no-items h rest f (suc g) m n = refl

  read-item : (v : Value) (vs : Items) → Reads v → ReadsItems vs → ReadsItems (item v vs)
  unfolding encode_value
  read-item v vs ih ihs h rest f zero m n = absurd (omega (arith, n))
  read-item v vs ih ihs h rest f (suc g) m n =
      let (c, t, e, open_end) = encode_value-head v in
      let more : Bytes = encode_items vs ++ (101 ∷ rest) in
      let whole : (encode_value v ++ encode_items vs) ++ (101 ∷ rest) ≡ encode_value v ++ more =
        append_assoc (encode_value v) (encode_items vs) (101 ∷ rest) in
      let size = length-append (encode_value v) (encode_items vs) in
      let some_byte : length (encode_value v) ≡ suc (length t) = ap length e in
      ap (decode_list (decode_into fail f) (suc g)) whole
      ∙ decode_list-step (decode_into fail f) g c (encode_value v ++ more) (t ++ more) more rest v
          vs (ap (λ b. b ++ more) e) open_end (ih h.0 more f (omega arith))
          (ihs h.1 rest f g (omega arith) (omega arith))

  no-fields : ReadsFields no_fields
  unfolding decode_dict write_entries encode_value
  no-fields h rest f zero last a m n = absurd (omega (arith, n))
  no-fields h rest f (suc g) last a m n = refl

  read-field :
      (k : Bytes) (v : Value) (fs : Fields) → Reads v → ReadsFields fs → ReadsFields (field k v fs)
  unfolding encode_value write_entries
  read-field k v fs ih ihs h rest f zero last a m n = absurd (omega (arith, n))
  read-field k v fs ih ihs h rest f (suc g) last a m n =
      let (c, t, e, d) = encode_text-head k in
      let others : Bytes = write_entries (entries fs) in
      let more : Bytes = others ++ (101 ∷ rest) in
      let whole : (encode_text k ++ (encode_value v ++ others)) ++ (101 ∷ rest)
          ≡ encode_text k ++ (encode_value v ++ more) =
        append_assoc (encode_text k) (encode_value v ++ others) (101 ∷ rest)
        ∙ ap (λ b. encode_text k ++ b) (append_assoc (encode_value v) others (101 ∷ rest)) in
      let size = length-append (encode_text k) (encode_value v ++ others) in
      let size' = length-append (encode_value v) others in
      let some_byte : length (encode_text k) ≡ suc (length t) = ap length e in
      ap (decode_dict (decode_into fail f) fail (suc g) last) whole
      ∙ decode_dict-step (decode_into fail f) fail g last c
          (encode_text k ++ (encode_value v ++ more)) (t ++ (encode_value v ++ more)) k
          (encode_value v ++ more) more rest v fs (ap (λ b. b ++ (encode_value v ++ more)) e)
          (omega (arith, d)) (decode_string-encode k (encode_value v ++ more) h.0)
          (unordered-After fail last k v fs a) (ih h.2 more f (omega arith))
          (ihs h.3 rest f g (some k) h.1 (omega arith) (omega arith))

  read_value : (v : Value) → Reads v
  read_value v = elim v as Reads ReadsItems ReadsFields [
    | integer i ↦ read-integer i
    | text s ↦ read-text s
    | list (vs → ih) ↦ read-list vs ih
    | dict (fs → ih) ↦ read-dict fs ih
    | no_items ↦ no-items
    | item (v → ih) (vs → ihs) ↦ read-item v vs ih ihs
    | no_fields ↦ no-fields
    | field k (v → ih) (fs → ihs) ↦ read-field k v fs ih ihs
  ]

-- What the encoder writes of a value is read back from the front of any input, whatever follows,
-- whether or not the decoder insists on ordered keys. The integers are in the range of an
-- int64, the strings have fewer than 2 ^ 31 bytes, and the entries of each map are listed by their keys.
pub decode-encode_value :
    (fail : Bool) (v : Value) (rest : Bytes)
    → IsValue v
    → decode fail (encode_value v ++ rest) ≡ some (v, rest)
unfolding decode
decode-encode_value fail v rest h =
    read_value fail v h rest (suc (length (encode_value v ++ rest)))
      (omega (arith, length-append (encode_value v) rest))
