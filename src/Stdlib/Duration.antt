-- ===== src/Stdlib/Duration.antt =====
-- time.ParseDuration, and the arithmetic of time.Duration and time.Time that the program uses.
-- A time is the number of nanoseconds since Go's zero time, so `IsZero` is `== 0`.
pub mod Units
use revival_integration.Base.{
  ℕ, zero, suc, ◌+◌, ◌-◌, ◌*◌, ◌/◌, ◌^◌, Bool, false, true, not, ◌&&◌, ◌||◌, List, [], ◌∷◌, Option,
  none, some, String, ℤ, pos, negsuc, ltb, ◌==◌, if◌then◌else◌, length,
}
use revival_integration.Stdlib.Decimal.{codes, is_digit}

abbrev pub Time : Type 0
Time = ℕ

abbrev pub second : ℕ
second = 1000000000

abbrev pub minute : ℕ
minute = 60 * second

abbrev pub hour : ℕ
hour = 3600 * second

abbrev pub day : ℕ
day = 24 * hour

-- Read an `int64` bit pattern as the signed number that it stands for.
abbrev pub of_bits : ℕ → ℤ
of_bits n = if ltb n (2 ^ 63) then pos n else negsuc (2 ^ 64 - n - 1)

-- `t.Add(d)`
pub add_time : Time → ℤ → Time
add_time t (pos n) = t + n
add_time t (negsuc n) = t - suc n

-- leadingInt: the digits at the front and what follows them; `none` on overflow.
pub leading_int : ℕ → List ℕ → Option (ℕ × List ℕ)
leading_int v [] = some (v, [])
leading_int v (c ∷ s) =
    if not (is_digit c)
    then some (v, c ∷ s)
    else if ltb (2 ^ 63 / 10) v
    then none
    else if ltb (2 ^ 63) (v * 10 + (c - b'0'))
    then none
    else leading_int (v * 10 + (c - b'0')) s

-- leadingFraction: the digits, the power of ten under them, and what follows. Go keeps the scale
-- in a float64 and drops digits past 63 bits; here both are exact.
leading_fraction : ℕ → ℕ → List ℕ → ℕ × ℕ × List ℕ
leading_fraction f scale [] = (f, scale, [])
leading_fraction f scale (c ∷ s) =
    if is_digit c then leading_fraction (f * 10 + (c - b'0')) (scale * 10) s else (f, scale, c ∷ s)

-- The unit: all characters up to the next digit or dot.
pub span_unit : List ℕ → List ℕ × List ℕ
span_unit [] = ([], [])
span_unit (c ∷ s) =
    let (u, rest) = span_unit s in if is_digit c || c == b'.' then ([], c ∷ s) else (c ∷ u, rest)

-- unitMap; the two micro signs are U+00B5 and U+03BC.
pub unit_map : List ℕ → Option ℕ
unit_map (c ∷ []) =
    if c == b's'
    then some second
    else if c == b'm'
    then some (60 * second)
    else if c == b'h'
    then some hour
    else none
unit_map (c ∷ d ∷ []) =
    if not (d == b's')
    then none
    else if c == b'n'
    then some 1
    else if c == b'u' || c == 0xb5 || c == 0x3bc
    then some 1000
    else if c == b'm'
    then some 1000000
    else none
unit_map _ = none

-- What stands behind the whole part: the fraction, its scale, whether it has digits, and the rest.
fraction_part : List ℕ → ℕ × ℕ × Bool × List ℕ
unfolding leading_fraction
fraction_part [] = (0, 1, false, [])
fraction_part (c ∷ s) =
    let (f, scale, rest) = leading_fraction 0 1 s in
    if c == b'.' then (f, scale, ltb (length rest) (length s), rest) else (0, 1, false, c ∷ s)

-- The value of one term, once its unit is known; `none` on overflow.
scaled : ℕ → ℕ → ℕ → ℕ → Option ℕ
scaled v f scale unit =
    if ltb (2 ^ 63 / unit) v
    then none
    else if ltb (2 ^ 63) (v * unit + f * unit / scale)
    then none
    else some (v * unit + f * unit / scale)

-- One round of the loop: the value of the first term, and the text behind it.
term_after : ℕ → Bool → ℕ × ℕ × Bool × List ℕ → Option (ℕ × List ℕ)
unfolding scaled
term_after v pre (f, scale, post, s) =
    let (u, rest) = span_unit s in
    if not pre && not post then none else elim (unit_map u) [
      | none ↦ none
      | some unit ↦ elim (scaled v f scale unit) [ none ↦ none | some t ↦ some (t, rest) ]
    ]

pub term : List ℕ → Option (ℕ × List ℕ)
unfolding term_after fraction_part
term s = elim (leading_int 0 s) [
  | none ↦ none
  | some (v, rest) ↦ term_after v (ltb (length rest) (length s)) (fraction_part rest)
]

starts_term : List ℕ → Bool
starts_term [] = false
starts_term (c ∷ _) = c == b'.' || is_digit c

-- The loop, on fuel: each round takes at least the character of a unit.
pub terms : ℕ → ℕ → List ℕ → Option ℕ
unfolding starts_term
terms fuel d [] = some d
terms zero d (c ∷ s) = none
terms (suc fuel) d (c ∷ s) = if not (starts_term (c ∷ s)) then none else elim (term (c ∷ s)) [
  | none ↦ none
  | some (t, rest) ↦ if ltb (2 ^ 63) (d + t) then none else terms fuel (d + t) rest
]

-- The text behind the sign.
pub parse_unsigned : List ℕ → Option ℕ
parse_unsigned [] = none
parse_unsigned (c ∷ s) =
    if c == b'0' && length s == 0 then some 0 else terms (length s + 1) 0 (c ∷ s)

signed : Bool → Option ℕ → Option ℤ
signed _ none = none
signed true (some zero) = some (pos 0)
signed true (some (suc n)) = some (negsuc n)
signed false (some n) = if ltb n (2 ^ 63) then some (pos n) else none

pub parse_codes : List ℕ → Option ℤ
unfolding signed
parse_codes [] = none
parse_codes (c ∷ s) =
    if c == b'-'
    then signed true (parse_unsigned s)
    else if c == b'+'
    then signed false (parse_unsigned s)
    else signed false (parse_unsigned (c ∷ s))

-- time.ParseDuration; `none` is its error.
unfoldable pub parse_duration : String → Option ℤ
unfolding parse_codes
parse_duration s = parse_codes (codes s)
