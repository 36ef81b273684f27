-- ===== src/Bencode/Decode/Fuel.antt =====
-- Every value that the decoder reads takes a byte at least.
use go_bt.Prelude.{
  ℕ, zero, suc, ◌^◌, ◌<◌, ◌≡◌, Bool, false, Bool-cases, Option, none, some, Option-cases, [], ◌∷◌,
  length, length-drop, Bytes, ◌==◌, inl, inr, arith,
}
use go_bt.Bencode.Number.{pos, negsuc, is_digit, parse_int}
use go_bt.Bencode.Value.{Value, Items, Fields}
use go_bt.Bencode.Decode.{
  read_bytes, decode_int, decode_string, decode_list, decode_dict, decode_into,
}

read_bytes-less :
    (delim : ℕ) (b : Bytes) (r : Bytes × Bytes)
    → read_bytes delim b ≡ some r
    → length r.1 < length b
unfolding read_bytes
read_bytes-less delim [] r h = ground arith
read_bytes-less delim (c ∷ b) r h = elim (Option-cases (read_bytes delim b)) [
  | inl e ↦ ground arith
  | inr found ↦ let less = read_bytes-less delim b found.0 found.1 in ground arith
]

pub decode_string-less :
    (b : Bytes) (r : Bytes × Bytes) → decode_string b ≡ some r → length r.1 < length b
unfolding decode_string
decode_string-less b r h = elim (Option-cases (read_bytes 58 b)) [
  | inl e ↦ ground arith
  | inr line ↦
      let less = read_bytes-less 58 b line.0 line.1 in
      elim (Option-cases (parse_int (2 ^ 31) line.0.0)) [
        | inl e ↦ ground arith
        | inr (pos l, e) ↦ ground (arith, length-drop l line.0.1)
        | inr (negsuc n, e) ↦ ground arith
      ]
]

decode_int-less : (b : Bytes) (r : Value × Bytes) → decode_int b ≡ some r → length r.1 < length b
unfolding decode_int
decode_int-less b r h = elim (Option-cases (read_bytes 101 b)) [
  | inl e ↦ ground arith
  | inr line ↦
      let less = read_bytes-less 101 b line.0 line.1 in
      elim (Option-cases (parse_int (2 ^ 63) line.0.0)) [
        | inl e ↦ ground arith
        | inr i ↦ ground arith
      ]
]

-- A reader that takes a byte at least, where it succeeds.
abbrev pub Takes : (Bytes → Option (Value × Bytes)) → Type 0
Takes read = (b : Bytes) (r : Value × Bytes) → read b ≡ some r → length r.1 < length b

module _ (read : Bytes → Option (Value × Bytes)) (takes : Takes read) where
  decode_list-less :
      (g : ℕ) (b : Bytes) (r : Items × Bytes)
      → decode_list read g b ≡ some r
      → length r.1 < length b
  unfolding decode_list
  decode_list-less zero b r h = ground arith
  decode_list-less (suc g) [] r h = ground arith
  decode_list-less (suc g) (c ∷ b) r h = elim (Option-cases (read (c ∷ b))) [
    | inl e ↦ ground arith
    | inr v ↦
        let less = takes (c ∷ b) v.0 v.1 in
        elim (Option-cases (decode_list read g v.0.1)) [
          | inl e ↦ ground arith
          | inr vs ↦ let less' = decode_list-less g v.0.1 vs.0 vs.1 in ground arith
        ]
  ]

  decode_dict-less :
      (fail : Bool) (g : ℕ) (last : Option Bytes) (b : Bytes) (r : Fields × Bytes)
      → decode_dict read fail g last b ≡ some r
      → length r.1 < length b
  unfolding decode_dict
  decode_dict-less fail zero last b r h = ground arith
  decode_dict-less fail (suc g) last [] r h = ground arith
  decode_dict-less fail (suc g) last (c ∷ b) r h = elim (Option-cases (decode_string (c ∷ b))) [
    | inl e ↦ ground arith
    | inr key ↦
        let shorter = decode_string-less (c ∷ b) key.0 key.1 in
        elim (Option-cases (read key.0.1)) [
          | inl e ↦ ground arith
          | inr v ↦
              let less = takes key.0.1 v.0 v.1 in
              elim (Option-cases (decode_dict read fail g (some key.0.0) v.0.1)) [
                | inl e ↦ ground arith
                | inr vs ↦
                    let less' = decode_dict-less fail g (some key.0.0) v.0.1 vs.0 vs.1 in
                    ground arith
              ]
        ]
  ]

decode_nested-less :
    (fail : Bool) (f c : ℕ) (b : Bytes) (r : Value × Bytes)
    → ((c == 105) ≡ false)
    → is_digit c ≡ false
    → Takes (decode_into fail f)
    → decode_into fail (suc f) (c ∷ b) ≡ some r
    → length r.1 < suc (length b)
unfolding decode_into
decode_nested-less fail f c b r i d takes h = elim (Bool-cases (c == 108)) [
  | inl l ↦ elim (Option-cases (decode_list (decode_into fail f) f b)) [
    | inl e ↦ ground arith
    | inr vs ↦ let less = decode_list-less (decode_into fail f) takes f b vs.0 vs.1 in ground arith
  ]
  | inr l ↦ elim (Option-cases (decode_dict (decode_into fail f) fail f none b)) [
    | inl e ↦ ground arith
    | inr fs ↦
        let less = decode_dict-less (decode_into fail f) takes fail f none b fs.0 fs.1 in
        ground arith
  ]
]

pub decode_into-Takes : (fail : Bool) (f : ℕ) → Takes (decode_into fail f)
unfolding decode_into
decode_into-Takes fail zero b r h = ground arith
decode_into-Takes fail (suc f) [] r h = ground arith
decode_into-Takes fail (suc f) (c ∷ b) r h = elim (Bool-cases (c == 105)) [
  | inl i ↦ let less = decode_int-less b r in ground arith
  | inr i ↦ elim (Bool-cases (is_digit c)) [
    | inl d ↦ elim (Option-cases (decode_string (c ∷ b))) [
      | inl e ↦ ground arith
      | inr s ↦ let less = decode_string-less (c ∷ b) s.0 s.1 in ground arith
    ]
    | inr d ↦ decode_nested-less fail f c b r i d (decode_into-Takes fail f) h
  ]
]
