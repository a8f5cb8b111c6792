-- ===== src/Base/Dicts.antt =====
-- A Go map with text keys, as an association list.
use Prim.Native.String.{String}
use mathlib.Core.Path.{◌≡◌, refl}
use mathlib.Core.Bool.{Bool, true}
use mathlib.Core.Option.{Option, none, some}
use mathlib.Core.List.{List, [], ◌∷◌}
use native.Mathlib.Omega.{arith}
use text.Mathlib.Text.{◌==◌ as str_eq}
use text.Mathlib.TextEquality.{eq_iff}
use text.Mathlib.TextPositions.{eq_refl}
use revival_integration.Base.Tests.{if◌then◌else◌, is_some}

abbrev pub Dict {ℓ} : Type ℓ → Type ℓ
Dict V = List (String × V)

module _ {ℓ} {V : Type ℓ} where
  -- `v, ok := m[key]`
  unfoldable pub lookup : String → Dict V → Option V
  lookup key [] = none
  lookup key ((other, found) ∷ rest) = if str_eq other key then some found else lookup key rest

  -- `_, ok := m[key]`
  unfoldable pub contains : String → Dict V → Bool
  contains key dict = is_some (lookup key dict)

  -- `m[key] = new`
  unfoldable pub insert : String → V → Dict V → Dict V
  insert key new [] = (key, new) ∷ []
  insert key new ((other, old) ∷ rest) =
      if str_eq other key then (key, new) ∷ rest else (other, old) ∷ insert key new rest

  -- A read after a write.
  lookup-insert :
      (written read : String) (new : V) (dict : Dict V)
      → lookup read (insert written new dict)
        ≡ (if str_eq written read then some new else lookup read dict)
  unfolding lookup insert
  lookup-insert written read new [] = refl
  lookup-insert written read new ((other, old) ∷ rest) = ground (
    arith,
    eq_iff other written,
    eq_iff other read,
    eq_iff written read,
    lookup-insert written read new rest,
  )

  pub contains-insert_self :
      (key : String) (new : V) (dict : Dict V) → contains key (insert key new dict) ≡ true
  unfolding contains
  contains-insert_self key new dict = simp (lookup-insert, eq_refl)
