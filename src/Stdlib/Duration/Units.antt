-- ===== src/Stdlib/Duration/Units.antt =====
-- time.ParseDuration knows no unit of days: digits and a `d` are an error.
use revival_integration.Base.{
  ◌==◌, zero, suc, Bool-cases, ◌/◌, ◌^◌, ◌+◌, ◌-◌, ◌*◌, ◌≡◌, refl, Bool, true, false, ◌&&◌, none,
  some, List, [], ◌∷◌, ◌++◌, ℕ, arith, length, ltb, ◌⊎◌, inl, inr,
}
use revival_integration.Stdlib.Decimal.{is_digit}
use revival_integration.Stdlib.Duration.{
  leading_int, term, term_after, fraction_part, signed, terms, parse_unsigned, parse_codes,
  span_unit, unit_map,
}

abbrev pub all_digits : List ℕ → Bool
all_digits [] = true
all_digits (c ∷ s) = is_digit c && all_digits s

leading_int-days :
    (ds : List ℕ) (v : ℕ)
    → all_digits ds ≡ true
    → (leading_int v (ds ++ (b'd' ∷ [])) ≡ none)
      ⊎ ((n : ℕ) × (leading_int v (ds ++ (b'd' ∷ [])) ≡ some (n, b'd' ∷ [])))
unfolding leading_int
leading_int-days [] v h = inr (v, refl)
leading_int-days (c ∷ ds) v h =
    let ih = leading_int-days ds (v * 10 + (c - b'0')) (ground arith) in
    elim (Bool-cases (ltb (2 ^ 63 / 10) v)) [
      | inl big ↦ inl (ground arith)
      | inr small ↦ elim (Bool-cases (ltb (2 ^ 63) (v * 10 + (c - b'0')))) [
        | inl big ↦ inl (ground arith)
        | inr fits ↦ elim ih [ inl e ↦ inl (ground arith) | inr (n, e) ↦ inr (n, ground arith) ]
      ]
    ]

-- Digits and a `d` are not a term.
term-days :
    (c : ℕ) (ds : List ℕ) → all_digits (c ∷ ds) ≡ true → term ((c ∷ ds) ++ (b'd' ∷ [])) ≡ none
unfolding term term_after fraction_part span_unit unit_map
term-days c ds h = elim (leading_int-days (c ∷ ds) 0 h) [
  | inl e ↦ ground arith
  | inr (n, e) ↦ ground arith
]

terms-days :
    (fuel c : ℕ) (ds : List ℕ)
    → all_digits (c ∷ ds) ≡ true
    → terms fuel 0 ((c ∷ ds) ++ (b'd' ∷ [])) ≡ none
unfolding terms
terms-days zero c ds h = refl
terms-days (suc fuel) c ds h = let e = term-days c ds h in ground arith

length-snoc_positive : (ds : List ℕ) (x : ℕ) → (length (ds ++ (x ∷ [])) == 0) ≡ false
length-snoc_positive [] x = refl
length-snoc_positive (c ∷ ds) x = ground arith

parse_unsigned-days :
    (c : ℕ) (ds : List ℕ)
    → all_digits (c ∷ ds) ≡ true
    → parse_unsigned ((c ∷ ds) ++ (b'd' ∷ [])) ≡ none
unfolding parse_unsigned
parse_unsigned-days c ds h =
    let n = length-snoc_positive ds b'd' in
    let e = terms-days (length (ds ++ (b'd' ∷ [])) + 1) c ds h in ground arith

-- Digits and a `d` are not a duration.
pub parse_codes-days :
    (c : ℕ) (ds : List ℕ)
    → all_digits (c ∷ ds) ≡ true
    → parse_codes ((c ∷ ds) ++ (b'd' ∷ [])) ≡ none
unfolding parse_codes signed
parse_codes-days c ds h = let e = parse_unsigned-days c ds h in ground arith
