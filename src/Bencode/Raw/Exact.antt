-- ===== src/Bencode/Raw/Exact.antt =====
-- A raw message is the bytes that were read.
use go_bt.Prelude.{
  ℕ, zero, suc, ◌^◌, ◌≡◌, false, Bool-cases, Option, some, Option-cases, [], ◌∷◌, ◌++◌,
  append_assoc, take, drop, take-append-drop, Bytes, ◌==◌, inl, inr, arith,
}
use go_bt.Bencode.Number.{pos, negsuc, is_digit, parse_int}
use go_bt.Bencode.Decode.{read_bytes}
use go_bt.Bencode.Raw.{raw_int, raw_string, raw_list, raw_dict, raw_into}

pub read_bytes-whole :
    (delim : ℕ) (b : Bytes) (r : Bytes × Bytes)
    → read_bytes delim b ≡ some r
    → r.0 ++ (delim ∷ r.1) ≡ b
unfolding read_bytes
read_bytes-whole delim [] r h = ground arith
read_bytes-whole delim (c ∷ b) r h = elim (Option-cases (read_bytes delim b)) [
  | inl e ↦ ground arith
  | inr found ↦ let whole = read_bytes-whole delim b found.0 found.1 in ground arith
]

-- A reader whose buffer and rest make up its input.
abbrev IsExact : (Bytes → Option (Bytes × Bytes)) → Type 0
IsExact read = (b : Bytes) (r : Bytes × Bytes) → read b ≡ some r → r.0 ++ r.1 ≡ b

raw_int-exact : (b : Bytes) (r : Bytes × Bytes) → raw_int b ≡ some r → r.0 ++ r.1 ≡ 105 ∷ b
unfolding raw_int
raw_int-exact b r h = elim (Option-cases (read_bytes 101 b)) [
  | inl e ↦ ground arith
  | inr line ↦
      let whole = read_bytes-whole 101 b line.0 line.1 in
      let same = append_assoc line.0.0 (101 ∷ []) line.0.1 in ground arith
]

raw_string-IsExact : IsExact raw_string
unfolding raw_string
raw_string-IsExact b r h = elim (Option-cases (read_bytes 58 b)) [
  | inl e ↦ ground arith
  | inr line ↦
      let whole = read_bytes-whole 58 b line.0 line.1 in
      elim (Option-cases (parse_int (2 ^ 31) line.0.0)) [
        | inl e ↦ ground arith
        | inr (negsuc n, e) ↦ ground arith
        | inr (pos l, e) ↦
            let same = append_assoc line.0.0 (58 ∷ take l line.0.1) (drop l line.0.1) in
            let halves = take-append-drop l line.0.1 in ground arith
      ]
]

module _ (read : Bytes → Option (Bytes × Bytes)) (exact : IsExact read) where
  raw_list-exact :
      (g : ℕ) (b : Bytes) (r : Bytes × Bytes) → raw_list read g b ≡ some r → r.0 ++ r.1 ≡ b
  unfolding raw_list
  raw_list-exact zero b r h = ground arith
  raw_list-exact (suc g) [] r h = ground arith
  raw_list-exact (suc g) (c ∷ b) r h = elim (Bool-cases (c == 101)) [
    | inl e ↦ ground arith
    | inr e ↦ elim (Option-cases (read (c ∷ b))) [
      | inl e' ↦ ground arith
      | inr v ↦
          let front = exact (c ∷ b) v.0 v.1 in
          elim (Option-cases (raw_list read g v.0.1)) [
            | inl e' ↦ ground arith
            | inr vs ↦
                let rest = raw_list-exact g v.0.1 vs.0 vs.1 in
                let same = append_assoc v.0.0 vs.0.0 vs.0.1 in ground arith
          ]
    ]
  ]

  raw_dict-exact :
      (g : ℕ) (b : Bytes) (r : Bytes × Bytes) → raw_dict read g b ≡ some r → r.0 ++ r.1 ≡ b
  unfolding raw_dict
  raw_dict-exact zero b r h = ground arith
  raw_dict-exact (suc g) [] r h = ground arith
  raw_dict-exact (suc g) (c ∷ b) r h = elim (Bool-cases (c == 101)) [
    | inl e ↦ ground arith
    | inr e ↦ elim (Option-cases (raw_string (c ∷ b))) [
      | inl e' ↦ ground arith
      | inr key ↦
          let key_front = raw_string-IsExact (c ∷ b) key.0 key.1 in
          elim (Option-cases (read key.0.1)) [
            | inl e' ↦ ground arith
            | inr v ↦
                let front = exact key.0.1 v.0 v.1 in
                elim (Option-cases (raw_dict read g v.0.1)) [
                  | inl e' ↦ ground arith
                  | inr vs ↦
                      let rest = raw_dict-exact g v.0.1 vs.0 vs.1 in
                      let same = append_assoc v.0.0 vs.0.0 vs.0.1 in
                      let same' = append_assoc key.0.0 (v.0.0 ++ vs.0.0) vs.0.1 in ground arith
                ]
          ]
    ]
  ]

nested-exact :
    (f c : ℕ) (b : Bytes) (r : Bytes × Bytes)
    → ((c == 105) ≡ false)
    → is_digit c ≡ false
    → IsExact (raw_into f)
    → raw_into (suc f) (c ∷ b) ≡ some r
    → r.0 ++ r.1 ≡ c ∷ b
unfolding raw_into
nested-exact f c b r i d exact h = elim (Bool-cases (c == 108)) [
  | inl l ↦ elim (Option-cases (raw_list (raw_into f) f b)) [
    | inl e ↦ ground arith
    | inr vs ↦ let whole = raw_list-exact (raw_into f) exact f b vs.0 vs.1 in ground arith
  ]
  | inr l ↦ elim (Option-cases (raw_dict (raw_into f) f b)) [
    | inl e ↦ ground arith
    | inr fs ↦ let whole = raw_dict-exact (raw_into f) exact f b fs.0 fs.1 in ground arith
  ]
]

-- A `RawMessage` is the bytes that the decoder takes: with what is left, they are the input.
pub raw_into-exact :
    (f : ℕ) (b : Bytes) (r : Bytes × Bytes) → raw_into f b ≡ some r → r.0 ++ r.1 ≡ b
unfolding raw_into
raw_into-exact zero b r h = ground arith
raw_into-exact (suc f) [] r h = ground arith
raw_into-exact (suc f) (c ∷ b) r h = elim (Bool-cases (c == 105)) [
  | inl i ↦ let number : c ≡ 105 = ground arith in let whole = raw_int-exact b r in ground arith
  | inr i ↦ elim (Bool-cases (is_digit c)) [
    | inl d ↦ let whole = raw_string-IsExact (c ∷ b) r in ground arith
    | inr d ↦ nested-exact f c b r i d (raw_into-exact f) h
  ]
]
