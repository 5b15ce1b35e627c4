-- ===== src/Reconciliation/Subsets/Search.antt =====
-- The bounded subset search is sound, complete up to its bound, and prefers small subsets.
use mathlib.Core.List.{Sublistᴰ, Memᴰ}
use mathlib.Core.Path.{subst}
use chainlink_economic_ledge.Prelude.{
  ℕ, zero, suc, ◌+◌, ◌-◌, ◌≤◌, ◌<◌, min, none, some, List, [], ◌∷◌, ◌++◌, map, false, ◌≡◌, refl, ap,
  sym, inl, inr, ℤ, pos, sum_ℤ, ◌<ℤ◌, eqb, length, find?, All, All-append, All-map, All-imp,
  All-Memᴰ, find?-some, find?-none, Bool-cases, Option-cases, arith, eqb_ℤ_iff,
}
use chainlink_economic_ledge.Reconciliation.Movement.{TokenMovement}
use chainlink_economic_ledge.Reconciliation.Subsets.{
  combinations, amounts, sums_to, try_sizes, max_size, find_subset_summing_to,
}

nil_sublist {ℓ} : {A : Type ℓ} (xs : List A) → Sublistᴰ [] xs
nil_sublist [] = Sublistᴰ.slnil
nil_sublist (x ∷ xs) = Sublistᴰ.cons (nil_sublist xs)

pub length-sublist {ℓ} : {A : Type ℓ} {c xs : List A} → Sublistᴰ c xs → length c ≤ length xs
length-sublist Sublistᴰ.slnil = omega arith
length-sublist (Sublistᴰ.cons s) = omega (arith, length-sublist s)
length-sublist (Sublistᴰ.cons-cons e s) = omega (arith, length-sublist s)

mem_append_left {ℓ} :
    {A : Type ℓ} {a : A} {xs : List A} (ys : List A) → Memᴰ a xs → Memᴰ a (xs ++ ys)
mem_append_left ys (Memᴰ.head e) = Memᴰ.head e
mem_append_left ys (Memᴰ.tail m) = Memᴰ.tail (mem_append_left ys m)

mem_append_right {ℓ} :
    {A : Type ℓ} {a : A} (xs : List A) {ys : List A} → Memᴰ a ys → Memᴰ a (xs ++ ys)
mem_append_right [] m = m
mem_append_right (x ∷ xs) m = Memᴰ.tail (mem_append_right xs m)

mem_map {ℓ κ} :
    {A : Type ℓ} {B : Type κ} (f : A → B) {a : A} {xs : List A} → Memᴰ a xs → Memᴰ (f a) (map f xs)
mem_map f (Memᴰ.head e) = Memᴰ.head (ap f e)
mem_map f (Memᴰ.tail m) = Memᴰ.tail (mem_map f m)

length_zero {ℓ} : {A : Type ℓ} (c : List A) → length c ≡ 0 → c ≡ []
length_zero [] e = refl
length_zero (x ∷ c) e = absurd (omega arith)

module _ {ℓ} {A : Type ℓ} where
  -- Each combination is a sublist of the size asked for.
  combinations_sound :
      (k : ℕ) (xs : List A) → All (λ c. Sublistᴰ c xs × (length c ≡ k)) (combinations k xs)
  unfolding combinations
  combinations_sound zero xs = ((nil_sublist xs, refl), tt)
  combinations_sound (suc k) [] = tt
  combinations_sound (suc k) (x ∷ xs) =
      All-append (λ c. Sublistᴰ c (x ∷ xs) × (length c ≡ suc k))
        (map (λ c. x ∷ c) (combinations k xs)) (combinations (suc k) xs)
        (All-map _ (λ c. x ∷ c) (combinations k xs)
          (All-imp (λ c h. (Sublistᴰ.cons-cons refl h.0, ap suc h.1)) (combinations k xs)
            (combinations_sound k xs)))
        (All-imp (λ c h. (Sublistᴰ.cons h.0, h.1)) (combinations (suc k) xs)
          (combinations_sound (suc k) xs))

  -- Every sublist of that size is among them.
  combinations_complete :
      {c xs : List A} → Sublistᴰ c xs → (k : ℕ) → length c ≡ k → Memᴰ c (combinations k xs)
  unfolding combinations
  combinations_complete Sublistᴰ.slnil zero e = Memᴰ.head refl
  combinations_complete Sublistᴰ.slnil (suc k) e = absurd (omega arith)
  combinations_complete (Sublistᴰ.cons s) zero e = Memᴰ.head (length_zero _ e)
  combinations_complete (Sublistᴰ.cons {a = x} {l₂ = ys} s) (suc k) e =
      mem_append_right (map (λ c. x ∷ c) (combinations k ys)) (combinations_complete s (suc k) e)
  combinations_complete (Sublistᴰ.cons-cons p s) zero e = absurd (omega arith)
  combinations_complete (Sublistᴰ.cons-cons {b = y} {l₁ = c} {l₂ = ys} p s) (suc k) e =
      mem_append_left (combinations (suc k) ys) (
        subst (λ z. Memᴰ (z ∷ c) (map (λ r. y ∷ r) (combinations k ys))) (sym p)
          (mem_map (λ r. y ∷ r) (combinations_complete s k (omega arith))))

abbrev pub total : List TokenMovement → ℤ
total combo = sum_ℤ (amounts combo)

-- A sublist of at least `first` movements with the target as its sum, and none that is smaller.
pub record IsSmallestSubset (movements : List TokenMovement) (target : ℤ) (first : ℕ)
    (combo : List TokenMovement) : Type 0 where
  pub sublist : Sublistᴰ combo movements
  pub exact_sum : total combo ≡ target
  pub at_least : first ≤ length combo
  pub smallest :
      (c : List TokenMovement)
      → Sublistᴰ c movements
      → first ≤ length c
      → length c < length combo
      → ¬ (total c ≡ target)

module _ (movements : List TokenMovement) (target : ℤ) where
  -- Where the combinations of a size are all refused, no sublist of that size has the sum.
  none_of_size :
      (k : ℕ)
      → find? (sums_to target) (combinations k movements) ≡ none
      → (c : List TokenMovement) → Sublistᴰ c movements
      → length c ≡ k
      → ¬ (total c ≡ target)
  none_of_size k refused c s size hit =
      let no : sums_to target c ≡ false =
        All-Memᴰ (λ c. sums_to target c ≡ false)
          (find?-none (sums_to target) (combinations k movements) refused)
          (combinations_complete s k size) in
      cc ((eqb_ℤ_iff (total c) target).1 hit, no)

  try_sizes-none :
      (first rounds : ℕ)
      → try_sizes movements target first rounds ≡ none
      → (c : List TokenMovement) → Sublistᴰ c movements
      → first ≤ length c
      → length c < first + rounds
      → ¬ (total c ≡ target)
  unfolding try_sizes
  try_sizes-none first zero e c s low high = absurd (omega arith)
  try_sizes-none first (suc rounds) e c s low high =
      elim (Option-cases (find? (sums_to target) (combinations first movements))) [
        | inl refused ↦ elim (Bool-cases (eqb (length c) first)) [
          | inl here ↦ none_of_size first refused c s (ground arith)
          | inr later ↦
              try_sizes-none (suc first) rounds (ground arith) c s (ground arith) (omega arith)
        ]
        | inr (combo, found) ↦ ground arith
      ]

  try_sizes-some :
      (first rounds : ℕ) {combo : List TokenMovement}
      → try_sizes movements target first rounds ≡ some combo
      → IsSmallestSubset movements target first combo × (length combo < first + rounds)
  unfolding try_sizes
  try_sizes-some first zero e = cc
  try_sizes-some first (suc rounds) {combo} e =
      elim (Option-cases (find? (sums_to target) (combinations first movements))) [
        | inl refused ↦ later refused (try_sizes-some (suc first) rounds (ground arith))
        | inr (found, hit) ↦
            let same : found ≡ combo = ground arith in
            let (fact, sum_hit) =
              find?-some (λ c. Sublistᴰ c movements × (length c ≡ first)) (sums_to target)
                (combinations first movements) (combinations_sound first movements) hit in
            rw (← same) (
              record {
                sublist = fact.0;
                exact_sum = (eqb_ℤ_iff (total found) target).0 sum_hit;
                at_least = omega (arith, fact.1);
                smallest = λ c s low high. absurd (omega (arith, fact.1));
              },
              omega (arith, fact.1),
            )
      ]
    where
      later :
          find? (sums_to target) (combinations first movements) ≡ none
          → IsSmallestSubset movements target (suc first) combo
            × (length combo < suc first + rounds)
          → IsSmallestSubset movements target first combo × (length combo < first + suc rounds)
      later refused (h, bound) = (
        record {
          sublist = h.sublist;
          exact_sum = h.exact_sum;
          at_least = omega (arith, h.at_least);
          smallest = λ c s low high. elim (Bool-cases (eqb (length c) first)) [
            | inl here ↦ none_of_size first refused c s (ground arith)
            | inr other ↦ h.smallest c s (ground arith) high
          ];
        },
        omega arith,
      )

-- A subset that the search returns is made of movements at different places, has the target as
-- its sum, has two to six members, and no smaller one of at least two members has that sum.
pub find_subset_summing_to-some :
    (movements : List TokenMovement) (target : ℤ) {combo : List TokenMovement}
    → find_subset_summing_to movements target ≡ some combo
    → IsSmallestSubset movements target 2 combo × (length combo ≤ max_size)
unfolding find_subset_summing_to
find_subset_summing_to-some movements target {combo} e =
    let rounds = min max_size (length movements) + 1 - 2 in
    let found : IsSmallestSubset movements target 2 combo × (length combo < 2 + rounds) =
      try_sizes-some movements target 2 rounds (ground arith) in
    (found.0, omega (arith, found.1, found.0.at_least))

-- Where the search returns nothing for a positive target, no two to six movements at different
-- places have it as their sum.
pub find_subset_summing_to-none :
    (movements : List TokenMovement) (target : ℤ)
    → pos 0 <ℤ target
    → find_subset_summing_to movements target ≡ none
    → (c : List TokenMovement) → Sublistᴰ c movements
    → 2 ≤ length c
    → length c ≤ max_size
    → ¬ (total c ≡ target)
unfolding find_subset_summing_to
find_subset_summing_to-none movements target positive e c s low high =
    try_sizes-none movements target 2 (min max_size (length movements) + 1 - 2)
      (ground (arith, length-sublist s)) c s low (omega (arith, length-sublist s))
