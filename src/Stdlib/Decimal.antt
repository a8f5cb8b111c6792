-- ===== src/Stdlib/Decimal.antt =====
-- strconv.FormatInt(n, 10) and strconv.Atoi.
use Prim.Native.Char.{code}
use revival_integration.Base.{
  ℕ, zero, suc, ◌+◌, ◌-◌, ◌*◌, ◌/◌, ◌%◌, ◌^◌, Bool, false, true, ◌&&◌, List, [], ◌∷◌, Option, none,
  some, String, ◌<>◌, ℤ, pos, negsuc, ltb, leb, ◌==◌, if◌then◌else◌,
}

abbrev pub codes : String → List ℕ
codes String.[] = []
codes (String.◌∷◌ c s) = code c ∷ codes s

abbrev pub is_digit : ℕ → Bool
is_digit c = leb b'0' c && leb c b'9'

-- The text of one decimal digit.
digit_text : ℕ → String
digit_text n =
    if n == 0
    then "0"
    else if n == 1
    then "1"
    else if n == 2
    then "2"
    else if n == 3
    then "3"
    else if n == 4
    then "4"
    else if n == 5
    then "5"
    else if n == 6
    then "6"
    else if n == 7
    then "7"
    else if n == 8
    then "8"
    else "9"

-- The fuel is the number of digits: an `int64` has at most 19.
format_digits : ℕ → ℕ → String → String
unfolding digit_text
format_digits zero n out = out
format_digits (suc fuel) n out =
    let longer = digit_text (n % 10) <> out in
    let rest = format_digits fuel (n / 10) longer in if ltb n 10 then longer else rest

unfoldable pub format_nat : ℕ → String
unfolding format_digits
format_nat n = format_digits 20 n ""

-- strconv.FormatInt(n, 10), also `%d`.
unfoldable pub format_int : ℤ → String
unfolding format_nat
format_int (pos n) = format_nat n
format_int (negsuc n) = "-" <> format_nat (suc n)

-- The digits of a number; `none` at the first other character, or where there is none at all.
digits_from : ℕ → List ℕ → Option ℕ
digits_from n [] = some n
digits_from n (c ∷ s) = if is_digit c then digits_from (n * 10 + (c - b'0')) s else none

unsigned : List ℕ → Option ℕ
unfolding digits_from
unsigned [] = none
unsigned (c ∷ s) = digits_from 0 (c ∷ s)

-- Atoi's first result: 0 on a syntax error, the nearest `int` on a range error.
saturate : Bool → Option ℕ → ℤ
saturate negative none = pos 0
saturate false (some n) = if ltb n (2 ^ 63) then pos n else pos (2 ^ 63 - 1)
saturate true (some zero) = pos 0
saturate true (some (suc n)) = if ltb n (2 ^ 63) then negsuc n else negsuc (2 ^ 63 - 1)

atoi_codes : List ℕ → ℤ
unfolding unsigned saturate
atoi_codes [] = pos 0
atoi_codes (c ∷ s) =
    if c == b'-'
    then saturate true (unsigned s)
    else if c == b'+'
    then saturate false (unsigned s)
    else saturate false (unsigned (c ∷ s))

-- `n, _ := strconv.Atoi(s)`
unfoldable pub atoi : String → ℤ
unfolding atoi_codes
atoi s = atoi_codes (codes s)

-- `%.2f` of an amount that is given in hundredths.
unfoldable pub format_hundredths : ℤ → String
unfolding format_nat digit_text
format_hundredths (pos n) =
    format_nat (n / 100) <> ("." <> (digit_text (n / 10 % 10) <> digit_text (n % 10)))
format_hundredths (negsuc n) =
    "-"
    <> (format_nat (suc n / 100)
        <> ("." <> (digit_text (suc n / 10 % 10) <> digit_text (suc n % 10))))
