-- ===== src/Bencode/Number.antt =====
-- Decimal integers, as `fmt` prints them with `%d` and `strconv.ParseInt(s, 10, bits)` reads them.
pub mod RoundTrip
use go_bt.Prelude.{
  ℕ, zero, suc, ◌+◌, ◌-◌, ◌*◌, ◌/◌, ◌%◌, ◌^◌, ◌<◌, ◌≤◌, Bool, true, false, ◌&&◌, Option, none, some,
  List, [], ◌∷◌, ◌++◌, Bytes, ltb, leb, ◌==◌, if◌then◌else◌,
}

-- An integer: `pos n` is n and `negsuc n` is -(n + 1).
pub data ℤ : Type 0 where
  pos : ℕ → ℤ
  negsuc : ℕ → ℤ

-- The digits of a number, for a number of rounds.
unfoldable pub digits : ℕ → ℕ → Bytes
digits zero n = []
digits (suc rounds) n =
    let front = digits rounds (n / 10) in
    if ltb n 10 then (48 + n) ∷ [] else front ++ ((48 + n % 10) ∷ [])

-- `%d`; one round more than the number is enough.
unfoldable pub format_nat : ℕ → Bytes
format_nat n = digits (suc n) n

unfoldable pub format_int : ℤ → Bytes
format_int (pos n) = format_nat n
format_int (negsuc n) = 45 ∷ format_nat (suc n)

abbrev pub is_digit : ℕ → Bool
is_digit c = leb 48 c && leb c 57

unfoldable pub parse_digits : ℕ → Bytes → Option ℕ
parse_digits acc [] = some acc
parse_digits acc (c ∷ s) =
    let rest = parse_digits (acc * 10 + (c - 48)) s in if is_digit c then rest else none

-- One digit at least.
unfoldable pub parse_nat : Bytes → Option ℕ
parse_nat [] = none
parse_nat (c ∷ s) = parse_digits 0 (c ∷ s)

unfoldable pub negated : ℕ → ℤ
negated zero = pos 0
negated (suc n) = negsuc n

-- `strconv.ParseInt(s, 10, bits)`, where `cutoff` is 2 ^ (bits - 1). An error is `none`.
unfoldable pub parse_int : ℕ → Bytes → Option ℤ
parse_int cutoff [] = none
parse_int cutoff (c ∷ s) =
    if c == 45
    then elim (parse_nat s) [
      | none ↦ none
      | some n ↦ if leb n cutoff then some (negated n) else none
    ]
    else elim (if c == 43 then parse_nat s else parse_nat (c ∷ s)) [
      | none ↦ none
      | some n ↦ if ltb n cutoff then some (pos n) else none
    ]
