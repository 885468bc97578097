-- ===== src/Prelude/Dict.antt =====
-- A JavaScript object used as a dictionary: its own properties, in insertion order.
use Prim.Native.String.{String}
use mathlib.Core.Path.{◌≡◌, refl}
use mathlib.Core.Option.{Option, none, some}
use mathlib.Core.List.{List, [], ◌∷◌}
use native.Mathlib.Omega.{arith}
use text.Mathlib.Text.{◌==◌}
use text.Mathlib.TextEquality.{eq_iff}
use text.Mathlib.TextPositions.{eq_refl}
use repo_assessment_kit.Prelude.Tests.{if◌then◌else◌}

module _ {ℓ} {V : Type ℓ} where
  -- `object[key]`, own properties only.
  unfoldable pub lookup : String → List (String × V) → Option V
  lookup key [] = none
  lookup key ((name, value) ∷ others) = if name == key then some value else lookup key others

  -- `delete object[key]`.
  unfoldable pub erase : String → List (String × V) → List (String × V)
  erase key [] = []
  erase key ((name, value) ∷ others) =
      if name == key then erase key others else (name, value) ∷ erase key others

  pub lookup-erase :
      (gone key : String) (object : List (String × V))
      → lookup key (erase gone object) ≡ (if gone == key then none else lookup key object)
  unfolding lookup erase
  lookup-erase gone key [] = ground arith
  lookup-erase gone key ((name, value) ∷ others) =
      ground
        (arith, lookup-erase gone key others, eq_iff name gone, eq_iff name key, eq_iff gone key)

  -- `object[key] = value`: a property keeps its place when it is written again.
  unfoldable pub insert : String → V → List (String × V) → List (String × V)
  insert key new [] = (key, new) ∷ []
  insert key new ((name, value) ∷ others) =
      if name == key then (key, new) ∷ others else (name, value) ∷ insert key new others

  pub lookup-insert :
      (written key : String) (new : V) (object : List (String × V))
      → lookup key (insert written new object)
        ≡ (if written == key then some new else lookup key object)
  unfolding lookup insert
  lookup-insert written key new [] = refl
  lookup-insert written key new ((name, value) ∷ others) = ground (
    arith,
    lookup-insert written key new others,
    eq_iff name key,
    eq_iff written key,
    eq_iff name written,
  )

  pub lookup-insert_self :
      (key : String) (new : V) (object : List (String × V))
      → lookup key (insert key new object) ≡ some new
  lookup-insert_self key new object = rw (lookup-insert, eq_refl key)
