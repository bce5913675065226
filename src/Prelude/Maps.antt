-- ===== src/Prelude/Maps.antt =====
-- Go maps with string keys, as association lists. The program does not iterate over these.
use mathlib.Core.Path.{◌≡◌}
use mathlib.Core.Option.{Option, none, some}
use mathlib.Core.List.{List, [], ◌∷◌}
use native.Mathlib.Omega.{arith}
use aamio_go.Prelude.Tests.{if◌then◌else◌}
use aamio_go.Prelude.Texts.{Text, text_eq, text_eq_iff}

module _ {ℓ} {V : Type ℓ} where
  unfoldable pub lookup : Text → List (Text × V) → Option V
  lookup k [] = none
  lookup k ((j, v) ∷ m) = if text_eq k j then some v else lookup k m

  -- delete(m, k)
  unfoldable pub erase : Text → List (Text × V) → List (Text × V)
  erase k [] = []
  erase k ((j, v) ∷ m) = let rest = erase k m in if text_eq k j then rest else (j, v) ∷ rest

  -- m[k] = v
  unfoldable pub insert : Text → V → List (Text × V) → List (Text × V)
  insert k v m = (k, v) ∷ erase k m

  pub lookup-erase :
      (k j : Text) (m : List (Text × V))
      → lookup j (erase k m) ≡ (if text_eq k j then none else lookup j m)
  unfolding lookup erase
  lookup-erase k j [] = ground arith
  lookup-erase k j ((i, v) ∷ m) =
      ground (arith, lookup-erase k j m, text_eq_iff k j, text_eq_iff k i, text_eq_iff j i)

  pub lookup-insert :
      (k j : Text) (v : V) (m : List (Text × V))
      → lookup j (insert k v m) ≡ (if text_eq k j then some v else lookup j m)
  unfolding lookup insert
  lookup-insert k j v m = ground (arith, lookup-erase k j m, text_eq_iff k j, text_eq_iff j k)
