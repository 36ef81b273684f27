-- ===== src/Bencode/Number/RoundTrip.antt =====
-- Printed integers are read back.
use go_bt.Prelude.{
  ℕ, zero, suc, ◌+◌, ◌-◌, ◌*◌, ◌/◌, ◌%◌, ◌^◌, ◌<◌, ◌≤◌, ◌≡◌, refl, ap, sym, subst, ◌∙◌, true, false,
  Bool-cases, some, [], ◌∷◌, ◌++◌, All, All-append, Bytes, ltb, leb, ◌==◌, inl, inr, arith,
}
use go_bt.Bencode.Number.{
  ℤ, pos, negsuc, digits, format_nat, format_int, parse_digits, parse_nat, negated, parse_int,
}

parse_digits-append :
    (acc m : ℕ) (s t : Bytes)
    → parse_digits acc s ≡ some m
    → parse_digits acc (s ++ t) ≡ parse_digits m t
unfolding parse_digits
parse_digits-append acc m [] t h = ground arith
parse_digits-append acc m (c ∷ s) t h =
    ground (arith, parse_digits-append (acc * 10 + (c - 48)) m s t)

parse_digits-digits : (rounds n : ℕ) → n < rounds → parse_digits 0 (digits rounds n) ≡ some n
unfolding parse_digits digits
parse_digits-digits zero n h = absurd (omega (arith, h))
parse_digits-digits (suc rounds) n h = elim (Bool-cases (ltb n 10)) [
  | inl small ↦ ground arith
  | inr large ↦
      let front = parse_digits-digits rounds (n / 10) (ground arith) in
      rw large (
        parse_digits-append 0 (n / 10) (digits rounds (n / 10)) ((48 + n % 10) ∷ []) front
        ∙ ground arith)
]

abbrev pub IsDigit : ℕ → Type 0
IsDigit c = (48 ≤ c) × (c ≤ 57)

digits-IsDigit : (rounds n : ℕ) → All IsDigit (digits rounds n)
unfolding digits
digits-IsDigit zero n = tt
digits-IsDigit (suc rounds) n = elim (Bool-cases (ltb n 10)) [
  | inl small ↦ rw small ((omega arith, ground arith), tt)
  | inr large ↦ rw large (
      All-append IsDigit (digits rounds (n / 10)) ((48 + n % 10) ∷ [])
        (digits-IsDigit rounds (n / 10)) ((omega arith, omega arith), tt))
]

digits-head : (rounds n : ℕ) → n < rounds → (c : ℕ) × (s : Bytes) × (digits rounds n ≡ c ∷ s)
unfolding digits
digits-head zero n h = absurd (omega (arith, h))
digits-head (suc rounds) n h = elim (Bool-cases (ltb n 10)) [
  | inl small ↦ (48 + n, [], rw small refl)
  | inr large ↦
      let (c, s, e) = digits-head rounds (n / 10) (ground arith) in
      (c, s ++ ((48 + n % 10) ∷ []), rw (large, e) refl)
]

-- A number that is printed has a digit in front, and digits only.
pub format_nat-head : (n : ℕ) → (c : ℕ) × (s : Bytes) × (format_nat n ≡ c ∷ s) × All IsDigit (c ∷ s)
unfolding format_nat
format_nat-head n =
    let (c, s, e) = digits-head (suc n) n (omega arith) in
    (c, s, e, subst (All IsDigit) e (digits-IsDigit (suc n) n))

parse_format : (n : ℕ) → parse_digits 0 (format_nat n) ≡ some n
unfolding format_nat
parse_format n = parse_digits-digits (suc n) n (omega arith)

parse_nat-format : (n : ℕ) → parse_nat (format_nat n) ≡ some n
unfolding parse_nat
parse_nat-format n =
    let (c, s, e, ds) = format_nat-head n in
    let parsed = parse_format n in rw e (subst (λ t. parse_digits 0 t ≡ some n) e parsed)

parse_int-step :
    (cutoff c n : ℕ) (s : Bytes)
    → ((c == 45) ≡ false)
    → ((c == 43) ≡ false)
    → parse_nat (c ∷ s) ≡ some n
    → ltb n cutoff ≡ true
    → parse_int cutoff (c ∷ s) ≡ some (pos n)
unfolding parse_int
parse_int-step cutoff c n s minus plus e fits = rw (parse_int, minus, plus, e, fits) refl

pub parse_int-nat : (cutoff n : ℕ) → n < cutoff → parse_int cutoff (format_nat n) ≡ some (pos n)
unfolding parse_int
parse_int-nat cutoff n h =
    let (c, s, e, ds) = format_nat-head n in
    let parsed : parse_nat (c ∷ s) ≡ some n = ap parse_nat (sym e) ∙ parse_nat-format n in
    let minus : (c == 45) ≡ false = ground arith in
    let plus : (c == 43) ≡ false = ground arith in
    let fits : ltb n cutoff ≡ true = ground arith in
    rw e (parse_int-step cutoff c n s minus plus parsed fits)

-- The range of an int64.
abbrev pub IsInt64 : ℤ → Type 0
IsInt64 (pos n) = n < 2 ^ 63
IsInt64 (negsuc n) = n < 2 ^ 63

-- Every int64 that is printed is read back.
pub parse_int-format : (i : ℤ) → IsInt64 i → parse_int (2 ^ 63) (format_int i) ≡ some i
unfolding format_int parse_int negated
parse_int-format (pos n) h = parse_int-nat (2 ^ 63) n h
parse_int-format (negsuc n) h =
    let fits : leb (suc n) (2 ^ 63) ≡ true = ground arith in
    rw (parse_nat-format (suc n), fits) refl
