-- ===== src/Prelude/Dict/Values.antt =====
-- The values of a dictionary are what its keys find.
use mathlib.Core.Path.{◌≡◌, refl, ap}
use Prim.Native.Nat.{suc}
use mathlib.Core.Bool.{Bool}
use mathlib.Core.Logic.{inl, inr}
use mathlib.Core.List.{[], ◌∷◌}
use mathlib.Core.Option.{some}
use native.Mathlib.Omega.{arith}
use chainlink_economic_ledge.Prelude.Tests.{Bool-cases}
use chainlink_economic_ledge.Prelude.Lists.{All, length, filter}
use chainlink_economic_ledge.Prelude.Keys.{Eq, beq_refl}
use chainlink_economic_ledge.Prelude.Dict.{Dict, lookup, values, IsDistinct}

module _ {ℓ κ} {K : Type ℓ} {V : Type κ} ⦃e : Eq K⦄ where
  pub All-values_of_found {θ} :
      (P : V → Type θ) (d : Dict K V)
      → IsDistinct d
      → ((k : K) (v : V) → lookup k d ≡ some v → P v)
      → All P (values d)
  All-values_of_found P [] h found = tt
  All-values_of_found P ((j, w) ∷ d) h found = (
    found j w (rw (beq_refl j) refl),
    All-values_of_found P d h.1 λ k v at. found k v (elim (Bool-cases (e.beq j k)) [
      | inl same ↦ ground (arith, (e.beq_iff j k).0 same, h.0)
      | inr differs ↦ rw differs at
    ]),
  )

  pub found-of_All-values {θ} :
      (P : V → Type θ) (d : Dict K V) (k : K) (v : V) → All P (values d) → lookup k d ≡ some v → P v
  found-of_All-values P [] k v h at = cc
  found-of_All-values P ((j, w) ∷ d) k v h at = elim (Bool-cases (e.beq j k)) [
    | inl same ↦ let it : w ≡ v = ground arith in rw (← it) h.0
    | inr differs ↦ found-of_All-values P d k v h.1 (rw differs at at)
  ]

module _ {ℓ κ} {K : Type ℓ} {V : Type κ} where
  -- As many items pass a test of their values as values do.
  pub length-filter_items :
      (p : V → Bool) (d : Dict K V) → length (filter (λ q. p q.1) d) ≡ length (filter p (values d))
  length-filter_items p [] = refl
  length-filter_items p ((k, v) ∷ d) = elim (Bool-cases (p v)) [
    | inl e ↦ rw e (ap suc (length-filter_items p d))
    | inr e ↦ rw e (length-filter_items p d)
  ]
