-- ===== src/Prelude/Dict.antt =====
-- Python's dict, in insertion order: an assignment to a known key keeps its place.
pub mod Values
use mathlib.Core.Path.{◌≡◌, refl, sym}
use mathlib.Core.Logic.{inl, inr}
use mathlib.Core.Bool.{Bool, true, false}
use mathlib.Core.List.{List, [], ◌∷◌, ◌++◌, append_assoc, append-nil}
use mathlib.Core.Option.{Option, none, some}
use native.Mathlib.Omega.{arith}
use chainlink_economic_ledge.Prelude.Tests.{if◌then◌else◌, Bool-cases}
use chainlink_economic_ledge.Prelude.Lists.{filter, All}
use chainlink_economic_ledge.Prelude.Keys.{Eq, beq_refl}

abbrev pub Dict {ℓ κ} : Type ℓ → Type κ → Type (ℓ ⊔ κ)
Dict K V = List (K × V)

module _ {ℓ κ} {K : Type ℓ} {V : Type κ} where
  abbrev pub keys : Dict K V → List K
  keys [] = []
  keys ((k, v) ∷ d) = k ∷ keys d

  abbrev pub values : Dict K V → List V
  values [] = []
  values ((k, v) ∷ d) = v ∷ values d

module _ {ℓ κ} {K : Type ℓ} {V : Type κ} ⦃e : Eq K⦄ where
  -- `d.get(k)`
  abbrev pub lookup : K → Dict K V → Option V
  lookup k [] = none
  lookup k ((j, v) ∷ d) = if e.beq j k then some v else lookup k d

  -- `k in d`
  abbrev pub has : K → Dict K V → Bool
  has k d = elim (lookup k d) [ none ↦ false | some _ ↦ true ]

  -- `d[k] = v`
  abbrev pub insert : K → V → Dict K V → Dict K V
  insert k v [] = (k, v) ∷ []
  insert k v ((j, w) ∷ d) = if e.beq j k then (j, v) ∷ d else (j, w) ∷ insert k v d

  pub lookup-insert :
      (k j : K) (v : V) (d : Dict K V)
      → lookup j (insert k v d) ≡ (if e.beq k j then some v else lookup j d)
  lookup-insert k j v [] = refl
  lookup-insert k j v ((i, w) ∷ d) =
      ground (arith, e.beq_iff k j, e.beq_iff i k, e.beq_iff i j, lookup-insert k j v d)

  pub lookup-insert_self : (k : K) (v : V) (d : Dict K V) → lookup k (insert k v d) ≡ some v
  lookup-insert_self k v d = rw (lookup-insert k k v d, beq_refl k)

-- `d.get(k, [])`
abbrev pub or_nil {ℓ} : {V : Type ℓ} → Option (List V) → List V
or_nil none = []
or_nil (some xs) = xs

-- Grouping: `d.setdefault(k, []).append(x)`.
module _ {ℓ κ} {K : Type ℓ} {V : Type κ} ⦃e : Eq K⦄ where
  abbrev pub push : K → V → Dict K (List V) → Dict K (List V)
  push k x [] = (k, x ∷ []) ∷ []
  push k x ((j, xs) ∷ d) = if e.beq j k then (j, xs ++ x ∷ []) ∷ d else (j, xs) ∷ push k x d

  -- `for x in xs: d.setdefault(key(x), []).append(x)`
  pub group_from : (V → K) → Dict K (List V) → List V → Dict K (List V)
  group_from key d [] = d
  group_from key d (x ∷ xs) = group_from key (push (key x) x d) xs

  unfoldable pub group_by : (V → K) → List V → Dict K (List V)
  unfolding group_from
  group_by key xs = group_from key [] xs

  lookup-push :
      (k j : K) (x : V) (d : Dict K (List V))
      → or_nil (lookup j (push k x d))
        ≡ (if e.beq k j then or_nil (lookup j d) ++ x ∷ [] else or_nil (lookup j d))
  lookup-push k j x [] = ground arith
  lookup-push k j x ((i, w) ∷ d) =
      ground (arith, e.beq_iff k j, e.beq_iff i k, e.beq_iff i j, lookup-push k j x d)

  lookup-group_from :
      (key : V → K) (j : K) (d : Dict K (List V)) (xs : List V)
      → or_nil (lookup j (group_from key d xs))
        ≡ or_nil (lookup j d) ++ filter (λ x. e.beq (key x) j) xs
  unfolding group_from
  lookup-group_from key j d [] = sym (append-nil _)
  lookup-group_from key j d (x ∷ xs) = elim (Bool-cases (e.beq (key x) j)) [
    | inl h ↦
        rw (lookup-group_from key j (push (key x) x d) xs, lookup-push (key x) j x d, h)
          (append_assoc (or_nil (lookup j d)) (x ∷ []) (filter (λ y. e.beq (key y) j) xs))
    | inr h ↦ rw (lookup-group_from key j (push (key x) x d) xs, lookup-push (key x) j x d, h) refl
  ]

  -- The group of a key holds the items with that key, in their order.
  pub lookup-group_by :
      (key : V → K) (j : K) (xs : List V)
      → or_nil (lookup j (group_by key xs)) ≡ filter (λ x. e.beq (key x) j) xs
  unfolding group_by
  lookup-group_by key j xs = lookup-group_from key j [] xs

module _ {ℓ κ} {K : Type ℓ} {V : Type κ} ⦃e : Eq K⦄ where
  -- No key stands twice.
  abbrev pub IsDistinct : Dict K V → Type κ
  IsDistinct [] = Unit
  IsDistinct ((k, v) ∷ d) = (lookup k d ≡ none) × IsDistinct d

  pub insert-IsDistinct : (k : K) (v : V) (d : Dict K V) → IsDistinct d → IsDistinct (insert k v d)
  insert-IsDistinct k v [] h = (refl, tt)
  insert-IsDistinct k v ((j, w) ∷ d) h = elim (Bool-cases (e.beq j k)) [
    | inl same ↦ rw same h
    | inr differs ↦ rw differs (
      ground (arith, lookup-insert k j v d, e.beq_iff k j, e.beq_iff j k),
      insert-IsDistinct k v d h.1,
    )
  ]

module _ {ℓ κ} {K : Type ℓ} {V : Type κ} ⦃e : Eq K⦄ where
  lookup-push_ne :
      (k j : K) (x : V) (d : Dict K (List V))
      → e.beq j k ≡ false
      → lookup j d ≡ none
      → lookup j (push k x d) ≡ none
  lookup-push_ne k j x [] ne h = ground (arith, e.beq_iff k j, e.beq_iff j k)
  lookup-push_ne k j x ((i, w) ∷ d) ne h =
      ground
        (arith, e.beq_iff k j, e.beq_iff j k, e.beq_iff i k, e.beq_iff i j, lookup-push_ne k j x d)

  push-IsDistinct : (k : K) (x : V) (d : Dict K (List V)) → IsDistinct d → IsDistinct (push k x d)
  push-IsDistinct k x [] h = (refl, tt)
  push-IsDistinct k x ((j, w) ∷ d) h = elim (Bool-cases (e.beq j k)) [
    | inl same ↦ rw same h
    | inr differs ↦ rw differs (lookup-push_ne k j x d differs h.0, push-IsDistinct k x d h.1)
  ]

  group_from-IsDistinct :
      (key : V → K) (d : Dict K (List V)) (xs : List V)
      → IsDistinct d
      → IsDistinct (group_from key d xs)
  unfolding group_from
  group_from-IsDistinct key d [] h = h
  group_from-IsDistinct key d (x ∷ xs) h =
      group_from-IsDistinct key (push (key x) x d) xs (push-IsDistinct (key x) x d h)

  All-values_of_lookup {θ} :
      (P : List V → Type θ) (d : Dict K (List V))
      → IsDistinct d
      → ((k : K) → P (or_nil (lookup k d)))
      → P []
      → All P (values d)
  All-values_of_lookup P [] h at empty = tt
  All-values_of_lookup P ((j, w) ∷ d) h at empty =
      (rw (beq_refl j) at (at j), All-values_of_lookup P d h.1 below empty)
    where
      below : (k : K) → P (or_nil (lookup k d))
      below k = elim (Bool-cases (e.beq j k)) [
        | inl same ↦ rw (← (e.beq_iff j k).0 same, h.0) empty
        | inr differs ↦ rw differs at (at k)
      ]

  -- What holds of the items of each key, and of no item, holds of each group.
  pub All-group_by {θ} :
      (P : List V → Type θ) (key : V → K) (xs : List V)
      → ((k : K) → P (filter (λ x. e.beq (key x) k) xs))
      → P []
      → All P (values (group_by key xs))
  unfolding group_by
  All-group_by P key xs h empty =
      All-values_of_lookup P (group_from key [] xs) (group_from-IsDistinct key [] xs tt)
        (λ k. rw (lookup-group_by key k xs) (h k)) empty
