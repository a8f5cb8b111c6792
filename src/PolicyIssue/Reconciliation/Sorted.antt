-- ===== src/PolicyIssue/Reconciliation/Sorted.antt =====
-- The rows of FindUnsignalledPolicies by issue date.
use mathlib.Core.List.{map}
use revival_integration.Base.{
  ℕ, zero, suc, ◌≤◌, ◌≡◌, refl, ◌∙◌, ap, Bool, true, ◌&&◌, leb, any, take, length, List, [], ◌∷◌,
  arith,
}
use revival_integration.Stdlib.Duration.{Time}
use revival_integration.PolicyIssue.Reconciliation.{
  SignalRow, StartPmLifecycleInput, insert_row, by_issue_date, target_of,
}

-- No row is older than the time.
abbrev none_older : Time → List SignalRow → Bool
none_older t [] = true
none_older t (row ∷ rows) = leb t row.policy_issue_date && none_older t rows

-- No row is older than one before it.
abbrev pub in_order : List SignalRow → Bool
in_order [] = true
in_order (row ∷ rows) = none_older row.policy_issue_date rows && in_order rows

none_older-earlier :
    (t u : Time) (rows : List SignalRow)
    → t ≤ u
    → none_older u rows ≡ true
    → none_older t rows ≡ true
none_older-earlier t u [] b h = refl
none_older-earlier t u (row ∷ rows) b h = ground (arith, none_older-earlier t u rows b)

none_older-insert :
    (t : Time) (row : SignalRow) (rows : List SignalRow)
    → none_older t (insert_row row rows) ≡ none_older t (row ∷ rows)
none_older-insert t row [] = refl
none_older-insert t row (first ∷ rows) = ground (arith, none_older-insert t row rows)

in_order-insert :
    (row : SignalRow) (rows : List SignalRow)
    → in_order rows ≡ true
    → in_order (insert_row row rows) ≡ true
in_order-insert row [] h = refl
in_order-insert row (first ∷ rows) h =
    let rest = in_order-insert row rows (ground arith) in
    let fits = none_older-insert first.policy_issue_date row rows in
    let later = none_older-earlier row.policy_issue_date first.policy_issue_date rows in
    ground (arith, rest, fits, later)

by_issue_date-in_order : (rows : List SignalRow) → in_order (by_issue_date rows) ≡ true
unfolding by_issue_date
by_issue_date-in_order [] = refl
by_issue_date-in_order (row ∷ rows) =
    in_order-insert row (by_issue_date rows) (by_issue_date-in_order rows)

none_older-take :
    (n : ℕ) (t : Time) (rows : List SignalRow)
    → none_older t rows ≡ true
    → none_older t (take n rows) ≡ true
none_older-take zero t rows h = refl
none_older-take (suc n) t [] h = refl
none_older-take (suc n) t (row ∷ rows) h = ground (arith, none_older-take n t rows)

in_order-take :
    (n : ℕ) (rows : List SignalRow) → in_order rows ≡ true → in_order (take n rows) ≡ true
in_order-take zero rows h = refl
in_order-take (suc n) [] h = refl
in_order-take (suc n) (row ∷ rows) h =
    ground (arith, in_order-take n rows, none_older-take n row.policy_issue_date rows)

-- The rows that the query returns are in the order of their issue dates.
pub by_issue_date-take :
    (n : ℕ) (rows : List SignalRow) → in_order (take n (by_issue_date rows)) ≡ true
by_issue_date-take n rows = in_order-take n (by_issue_date rows) (by_issue_date-in_order rows)

length-insert_row :
    (row : SignalRow) (rows : List SignalRow) → length (insert_row row rows) ≡ suc (length rows)
length-insert_row row [] = refl
length-insert_row row (first ∷ rows) = ground (arith, length-insert_row row rows)

pub length-by_issue_date : (rows : List SignalRow) → length (by_issue_date rows) ≡ length rows
unfolding by_issue_date
length-by_issue_date [] = refl
length-by_issue_date (row ∷ rows) =
    length-insert_row row (by_issue_date rows) ∙ ap suc (length-by_issue_date rows)

module _ (test : StartPmLifecycleInput → Bool) where
  any-insert_row :
      (row : SignalRow) (rows : List SignalRow)
      → any test (map target_of (insert_row row rows)) ≡ any test (map target_of (row ∷ rows))
  any-insert_row row [] = refl
  any-insert_row row (first ∷ rows) = ground (arith, any-insert_row row rows)

  -- The order changes nothing in what some input satisfies.
  pub any-by_issue_date :
      (rows : List SignalRow)
      → any test (map target_of (by_issue_date rows)) ≡ any test (map target_of rows)
  unfolding by_issue_date
  any-by_issue_date [] = refl
  any-by_issue_date (row ∷ rows) =
      ground (arith, any-insert_row row (by_issue_date rows), any-by_issue_date rows)
