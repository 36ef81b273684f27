-- ===== src/Bencode/Raw/Accepts.antt =====
-- What decodes, is kept by a `RawMessage` too.
use go_bt.Prelude.{
  ℕ, zero, suc, ◌^◌, ◌≡◌, Bool, false, Bool-cases, Option, none, some, Option-cases, [], ◌∷◌, ◌++◌,
  take, Bytes, ◌==◌, inl, inr, arith,
}
use go_bt.Bencode.Number.{pos, negsuc, is_digit, parse_int}
use go_bt.Bencode.Value.{Value, Items, Fields}
use go_bt.Bencode.Decode.{
  read_bytes, decode_int, decode_string, decode_list, decode_dict, decode_into,
}
use go_bt.Bencode.Raw.{raw_int, raw_string, raw_list, raw_dict, raw_into}

-- The raw reader takes the input, and leaves the same.
abbrev Keeps : Option (Bytes × Bytes) → Bytes → Type 0
Keeps o rest = (x : Bytes) × (o ≡ some (x, rest))

raw_int-Keeps : (b : Bytes) (r : Value × Bytes) → decode_int b ≡ some r → Keeps (raw_int b) r.1
unfolding decode_int raw_int
raw_int-Keeps b r h = elim (Option-cases (read_bytes 101 b)) [
  | inl e ↦ absurd (ground arith)
  | inr line ↦ (
    105 ∷ (line.0.0 ++ (101 ∷ [])),
    elim (Option-cases (parse_int (2 ^ 63) line.0.0)) [
      | inl e ↦ ground arith
      | inr i ↦ ground arith
    ],
  )
]

raw_string-Keeps :
    (b : Bytes) (r : Bytes × Bytes) → decode_string b ≡ some r → Keeps (raw_string b) r.1
unfolding decode_string raw_string
raw_string-Keeps b r h = elim (Option-cases (read_bytes 58 b)) [
  | inl e ↦ absurd (ground arith)
  | inr line ↦ elim (Option-cases (parse_int (2 ^ 31) line.0.0)) [
    | inl e ↦ absurd (ground arith)
    | inr (negsuc n, e) ↦ absurd (ground arith)
    | inr (pos l, e) ↦ (line.0.0 ++ (58 ∷ take l line.0.1), ground arith)
  ]
]

module _ (read : Bytes → Option (Value × Bytes)) (raw : Bytes → Option (Bytes × Bytes))
    (keeps : (b : Bytes) (r : Value × Bytes) → read b ≡ some r → Keeps (raw b) r.1) where
  raw_list-Keeps :
      (g : ℕ) (b : Bytes) (r : Items × Bytes)
      → decode_list read g b ≡ some r
      → Keeps (raw_list raw g b) r.1
  unfolding decode_list raw_list
  raw_list-Keeps zero b r h = absurd (ground arith)
  raw_list-Keeps (suc g) [] r h = absurd (ground arith)
  raw_list-Keeps (suc g) (c ∷ b) r h = elim (Bool-cases (c == 101)) [
    | inl e ↦ (101 ∷ [], ground arith)
    | inr e ↦ elim (Option-cases (read (c ∷ b))) [
      | inl e' ↦ absurd (ground arith)
      | inr v ↦ elim (Option-cases (decode_list read g v.0.1)) [
        | inl e' ↦ absurd (ground arith)
        | inr vs ↦
            let (x, ex) = keeps (c ∷ b) v.0 v.1 in
            let (y, ey) = raw_list-Keeps g v.0.1 vs.0 vs.1 in (x ++ y, ground arith)
      ]
    ]
  ]

  raw_dict-Keeps :
      (fail : Bool) (g : ℕ) (last : Option Bytes) (b : Bytes) (r : Fields × Bytes)
      → decode_dict read fail g last b ≡ some r
      → Keeps (raw_dict raw g b) r.1
  unfolding decode_dict raw_dict
  raw_dict-Keeps fail zero last b r h = absurd (ground arith)
  raw_dict-Keeps fail (suc g) last [] r h = absurd (ground arith)
  raw_dict-Keeps fail (suc g) last (c ∷ b) r h = elim (Bool-cases (c == 101)) [
    | inl e ↦ (101 ∷ [], ground arith)
    | inr e ↦ elim (Option-cases (decode_string (c ∷ b))) [
      | inl e' ↦ absurd (ground arith)
      | inr key ↦ elim (Option-cases (read key.0.1)) [
        | inl e' ↦ absurd (ground arith)
        | inr v ↦ elim (Option-cases (decode_dict read fail g (some key.0.0) v.0.1)) [
          | inl e' ↦ absurd (ground arith)
          | inr fs ↦
              let (k, ek) = raw_string-Keeps (c ∷ b) key.0 key.1 in
              let (x, ex) = keeps key.0.1 v.0 v.1 in
              let (y, ey) = raw_dict-Keeps fail g (some key.0.0) v.0.1 fs.0 fs.1 in
              (k ++ (x ++ y), ground arith)
        ]
      ]
    ]
  ]

nested-Keeps :
    (fail : Bool) (f c : ℕ) (b : Bytes) (r : Value × Bytes)
    → ((c == 105) ≡ false)
    → is_digit c ≡ false
    → ((d : Bytes) (s : Value × Bytes) → decode_into fail f d ≡ some s → Keeps (raw_into f d) s.1)
    → decode_into fail (suc f) (c ∷ b) ≡ some r
    → Keeps (raw_into (suc f) (c ∷ b)) r.1
unfolding decode_into raw_into
nested-Keeps fail f c b r i d keeps h = elim (Bool-cases (c == 108)) [
  | inl l ↦ elim (Option-cases (decode_list (decode_into fail f) f b)) [
    | inl e ↦ absurd (ground arith)
    | inr vs ↦
        let (x, ex) = raw_list-Keeps (decode_into fail f) (raw_into f) keeps f b vs.0 vs.1 in
        (108 ∷ x, ground arith)
  ]
  | inr l ↦ elim (Option-cases (decode_dict (decode_into fail f) fail f none b)) [
    | inl e ↦ absurd (ground arith)
    | inr fs ↦
        let (x, ex) =
          raw_dict-Keeps (decode_into fail f) (raw_into f) keeps fail f none b fs.0 fs.1 in
        (100 ∷ x, ground arith)
  ]
]

-- Whatever decodes into a value is taken as a `RawMessage` too, and leaves the same bytes to read.
pub raw_into-decodes :
    (fail : Bool) (f : ℕ) (b : Bytes) (r : Value × Bytes)
    → decode_into fail f b ≡ some r
    → (x : Bytes) × (raw_into f b ≡ some (x, r.1))
unfolding decode_into raw_into
raw_into-decodes fail zero b r h = absurd (ground arith)
raw_into-decodes fail (suc f) [] r h = absurd (ground arith)
raw_into-decodes fail (suc f) (c ∷ b) r h = elim (Bool-cases (c == 105)) [
  | inl i ↦ let (x, ex) = raw_int-Keeps b r (ground arith) in (x, ground arith)
  | inr i ↦ elim (Bool-cases (is_digit c)) [
    | inl d ↦ elim (Option-cases (decode_string (c ∷ b))) [
      | inl e ↦ absurd (ground arith)
      | inr s ↦ let (x, ex) = raw_string-Keeps (c ∷ b) s.0 s.1 in (x, ground arith)
    ]
    | inr d ↦ nested-Keeps fail f c b r i d (raw_into-decodes fail f) h
  ]
]
