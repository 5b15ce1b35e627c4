-- ===== src/Reconciliation/Partition/Hashes.antt =====
-- The transactions that a partition reconciles.
use chainlink_economic_ledge.Prelude.{
  String, List, [], ◌∷◌, ◌++◌, Bool, false, ◌||◌, ◌≡◌, refl, ap, ◌∙◌, inl, inr, contains, ◌==◌,
  string_eq, AreDistinct, Bool-cases, arith,
}
use chainlink_economic_ledge.Prelude.Sort.{insert_sorted, sort}
use chainlink_economic_ledge.Reconciliation.Partition.{distinct, all_tx_hashes}

contains-append :
    (xs ys : List String) (h : String) → contains (xs ++ ys) h ≡ (contains xs h || contains ys h)
contains-append [] ys h = refl
contains-append (x ∷ xs) ys h = ground (arith, contains-append xs ys h)

contains-distinct : (xs : List String) (h : String) → contains (distinct xs) h ≡ contains xs h
unfolding distinct
contains-distinct [] h = refl
contains-distinct (x ∷ xs) h =
    ground (arith, contains-distinct xs h, contains-distinct xs x, string_eq.beq_iff x h)

distinct-AreDistinct : (xs : List String) → AreDistinct (distinct xs)
unfolding distinct
distinct-AreDistinct [] = tt
distinct-AreDistinct (x ∷ xs) = elim (Bool-cases (contains (distinct xs) x)) [
  | inl known ↦ rw known (distinct-AreDistinct xs)
  | inr new ↦ rw new (new, distinct-AreDistinct xs)
]

module _ (le : String → String → Bool) where
  contains-insert_sorted :
      (x : String) (xs : List String) (h : String)
      → contains (insert_sorted le x xs) h ≡ (x == h || contains xs h)
  contains-insert_sorted x [] h = refl
  contains-insert_sorted x (y ∷ ys) h = ground (arith, contains-insert_sorted x ys h)

  contains-sort : (xs : List String) (h : String) → contains (sort le xs) h ≡ contains xs h
  contains-sort [] h = refl
  contains-sort (x ∷ xs) h =
      contains-insert_sorted x (sort le xs) h ∙ ap (λ b. x == h || b) (contains-sort xs h)

  insert_sorted-AreDistinct :
      (x : String) (xs : List String)
      → contains xs x ≡ false
      → AreDistinct xs
      → AreDistinct (insert_sorted le x xs)
  insert_sorted-AreDistinct x [] new h = (refl, tt)
  insert_sorted-AreDistinct x (y ∷ ys) new h = elim (Bool-cases (le x y)) [
    | inl first ↦ rw first (new, h)
    | inr later ↦ rw later (
      ground
          (arith, contains-insert_sorted x ys y, string_eq.beq_iff x y, string_eq.beq_iff y x, h.0),
      insert_sorted-AreDistinct x ys (ground arith) h.1,
    )
  ]

  sort-AreDistinct : (xs : List String) → AreDistinct xs → AreDistinct (sort le xs)
  sort-AreDistinct [] h = tt
  sort-AreDistinct (x ∷ xs) h =
      insert_sorted-AreDistinct x (sort le xs) (contains-sort xs x ∙ h.0) (sort-AreDistinct xs h.1)

-- The hashes that a partition goes through are those of the actions and of the movements, each
-- once.
pub all_tx_hashes-AreDistinct :
    (a b : List String)
    → AreDistinct (all_tx_hashes a b)
      × ((h : String) → contains (all_tx_hashes a b) h ≡ (contains a h || contains b h))
unfolding all_tx_hashes
all_tx_hashes-AreDistinct a b = (
  sort-AreDistinct _ (distinct (a ++ b)) (distinct-AreDistinct (a ++ b)),
  λ h. contains-sort _ (distinct (a ++ b)) h ∙ contains-distinct (a ++ b) h ∙ contains-append a b h,
)
