-- ===== src/Bencode/Decode/Strings.antt =====
-- Written strings and integers are read back.
use go_bt.Prelude.{
  ℕ, suc, ◌^◌, ◌<◌, ◌≡◌, ◌≢◌, refl, ap, sym, subst, ◌∙◌, false, some, [], ◌∷◌, ◌++◌, append_assoc,
  length, length-append, take-append_length, drop-append_length, All, Bytes, ltb, ◌==◌, arith,
}
use go_bt.Bencode.Number.{ℤ, pos, negsuc, format_nat, format_int}
use go_bt.Bencode.Number.RoundTrip.{
  IsDigit, IsInt64, format_nat-head, parse_int-nat, parse_int-format,
}
use go_bt.Bencode.Value.{integer, IsText}
use go_bt.Bencode.Encode.{encode_text}
use go_bt.Bencode.Decode.{read_bytes, decode_int, decode_string}

-- A line whose bytes are not the delimiter is read up to it.
pub read_bytes-line :
    (delim : ℕ) (line rest : Bytes)
    → All (λ c. c ≢ delim) line
    → read_bytes delim (line ++ (delim ∷ rest)) ≡ some (line, rest)
unfolding read_bytes
read_bytes-line delim [] rest h = ground arith
read_bytes-line delim (c ∷ line) rest h =
    let other : (c == delim) ≡ false = ground arith in
    rw (other, read_bytes-line delim line rest h.1) refl

-- The delimiters stand above the digits.
digits-ne : (delim : ℕ) (s : Bytes) → 57 < delim → All IsDigit s → All (λ c. c ≢ delim) s
digits-ne delim [] h ds = tt
digits-ne delim (c ∷ s) h ds = (omega (arith, ds.0), digits-ne delim s h ds.1)

nat-ne : (delim n : ℕ) → 57 < delim → All (λ c. c ≢ delim) (format_nat n)
nat-ne delim n h =
    let (c, s, e, ds) = format_nat-head n in
    subst (All (λ d. d ≢ delim)) (sym e) (digits-ne delim (c ∷ s) h ds)

int-ne : (i : ℤ) → All (λ c. c ≢ 101) (format_int i)
unfolding format_int
int-ne (pos n) = nat-ne 101 n (omega arith)
int-ne (negsuc n) = (omega arith, nat-ne 101 (suc n) (omega arith))

-- An integer in the range of an int64 is read back.
pub decode_int-format :
    (i : ℤ) (rest : Bytes)
    → IsInt64 i
    → decode_int (format_int i ++ (101 ∷ rest)) ≡ some (integer i, rest)
unfolding decode_int
decode_int-format i rest h =
    rw (decode_int, read_bytes-line 101 (format_int i) rest (int-ne i), parse_int-format i h) refl

-- A string of fewer than 2 ^ 31 bytes is read back.
pub decode_string-encode :
    (s rest : Bytes) → IsText s → decode_string (encode_text s ++ rest) ≡ some (s, rest)
unfolding decode_string encode_text
decode_string-encode s rest h =
    let whole : (format_nat (length s) ++ (58 ∷ s)) ++ rest
        ≡ format_nat (length s) ++ (58 ∷ (s ++ rest)) =
      append_assoc (format_nat (length s)) (58 ∷ s) rest in
    let line : read_bytes 58 ((format_nat (length s) ++ (58 ∷ s)) ++ rest)
        ≡ some (format_nat (length s), s ++ rest) =
      ap (read_bytes 58) whole
      ∙ read_bytes-line 58 (format_nat (length s)) (s ++ rest)
          (nat-ne 58 (length s) (omega arith)) in
    let room : ltb (length (s ++ rest)) (length s) ≡ false = ground (arith, length-append s rest) in
    rw
      (
        decode_string,
        line,
        parse_int-nat (2 ^ 31) (length s) h,
        room,
        take-append_length s rest,
        drop-append_length s rest,
      )
      refl
