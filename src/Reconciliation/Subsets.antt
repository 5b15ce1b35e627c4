-- ===== src/Reconciliation/Subsets.antt =====
-- reconciliation/economic_reconciler.py, `_find_subset_summing_to`, over `itertools.combinations`.
pub mod Search
use chainlink_economic_ledge.Prelude.{
  ℕ, zero, suc, ◌+◌, ◌-◌, min, Option, none, some, List, [], ◌∷◌, ◌++◌, map, Bool, ◌||◌, ℤ, pos,
  sum_ℤ, leb_ℤ, eqb_ℤ, eqb, length, find?, if◌then◌else◌,
}
use chainlink_economic_ledge.Reconciliation.Movement.{TokenMovement}

-- The sublists of a given size, in the order of their positions.
unfoldable pub combinations {ℓ} : {A : Type ℓ} → ℕ → List A → List (List A)
combinations zero xs = [] ∷ []
combinations (suc k) [] = []
combinations (suc k) (x ∷ xs) = map (λ c. x ∷ c) (combinations k xs) ++ combinations (suc k) xs

abbrev pub amounts : List TokenMovement → List ℤ
amounts = map (λ m. m.amount)

abbrev pub sums_to : ℤ → List TokenMovement → Bool
sums_to target combo = eqb_ℤ (sum_ℤ (amounts combo)) target

-- `for size in range(first, first + rounds)`, with the inner loop over the combinations.
unfoldable pub try_sizes : List TokenMovement → ℤ → ℕ → ℕ → Option (List TokenMovement)
unfolding combinations
try_sizes movements target first zero = none
try_sizes movements target first (suc rounds) =
    let later = try_sizes movements target (suc first) rounds in
    elim (find? (sums_to target) (combinations first movements)) [
      | some combo ↦ some combo
      | none ↦ later
    ]

abbrev pub max_size : ℕ
max_size = 6

unfoldable pub find_subset_summing_to : List TokenMovement → ℤ → Option (List TokenMovement)
unfolding try_sizes
find_subset_summing_to movements target =
    if eqb (length movements) 0 || leb_ℤ target (pos 0)
    then none
    else try_sizes movements target 2 (min max_size (length movements) + 1 - 2)
