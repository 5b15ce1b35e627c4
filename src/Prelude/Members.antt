-- ===== src/Prelude/Members.antt =====
-- Where the items of a list come to stand after grouping, flattening and sorting.
use mathlib.Core.Path.{◌≡◌, refl}
use mathlib.Core.Logic.{inl, inr, ◌⊎◌}
use mathlib.Core.Bool.{Bool, true, ◌||◌}
use mathlib.Core.List.{List, [], ◌∷◌, ◌++◌, Memᴰ, flat_map}
use mathlib.Core.Option.{some}
use native.Mathlib.Omega.{arith}
use chainlink_economic_ledge.Prelude.Tests.{Bool-cases, Option-cases}
use chainlink_economic_ledge.Prelude.Lists.{filter}
use chainlink_economic_ledge.Prelude.Keys.{Eq, beq_refl, contains}
use chainlink_economic_ledge.Prelude.Sort.{insert_sorted, sort}
use chainlink_economic_ledge.Prelude.Dict.{Dict, lookup, values, group_by, lookup-group_by}

module _ {ℓ} {A : Type ℓ} where
  pub mem-append_left : {a : A} {xs : List A} (ys : List A) → Memᴰ a xs → Memᴰ a (xs ++ ys)
  mem-append_left ys (Memᴰ.head e) = Memᴰ.head e
  mem-append_left ys (Memᴰ.tail m) = Memᴰ.tail (mem-append_left ys m)

  pub mem-append_right : {a : A} (xs : List A) {ys : List A} → Memᴰ a ys → Memᴰ a (xs ++ ys)
  mem-append_right [] m = m
  mem-append_right (x ∷ xs) m = Memᴰ.tail (mem-append_right xs m)

  pub mem-append_split :
      {a : A} (xs : List A) {ys : List A} → Memᴰ a (xs ++ ys) → Memᴰ a xs ⊎ Memᴰ a ys
  mem-append_split [] m = inr m
  mem-append_split (x ∷ xs) (Memᴰ.head e) = inl (Memᴰ.head e)
  mem-append_split (x ∷ xs) (Memᴰ.tail m) = elim (mem-append_split xs m) [
    | inl l ↦ inl (Memᴰ.tail l)
    | inr r ↦ inr r
  ]

  pub mem-filter :
      (p : A → Bool) {a : A} {xs : List A} → Memᴰ a xs → p a ≡ true → Memᴰ a (filter p xs)
  mem-filter p {a} (Memᴰ.head {x = x} e) h =
      let kept : p x ≡ true = rw e at h in rw kept (Memᴰ.head e)
  mem-filter p (Memᴰ.tail {x = x} m) h = elim (Bool-cases (p x)) [
    | inl kept ↦ rw kept (Memᴰ.tail (mem-filter p m h))
    | inr gone ↦ rw gone (mem-filter p m h)
  ]

  mem-insert_sorted_new : (le : A → A → Bool) (a : A) (xs : List A) → Memᴰ a (insert_sorted le a xs)
  mem-insert_sorted_new le a [] = Memᴰ.head refl
  mem-insert_sorted_new le a (x ∷ xs) = elim (Bool-cases (le a x)) [
    | inl h ↦ rw h (Memᴰ.head refl)
    | inr h ↦ rw h (Memᴰ.tail (mem-insert_sorted_new le a xs))
  ]

  mem-insert_sorted :
      (le : A → A → Bool) (b : A) {a : A} {xs : List A} → Memᴰ a xs → Memᴰ a (insert_sorted le b xs)
  mem-insert_sorted le b (Memᴰ.head {x = x} e) = elim (Bool-cases (le b x)) [
    | inl h ↦ rw h (Memᴰ.tail (Memᴰ.head e))
    | inr h ↦ rw h (Memᴰ.head e)
  ]
  mem-insert_sorted le b (Memᴰ.tail {x = x} m) = elim (Bool-cases (le b x)) [
    | inl h ↦ rw h (Memᴰ.tail (Memᴰ.tail m))
    | inr h ↦ rw h (Memᴰ.tail (mem-insert_sorted le b m))
  ]

  pub mem-sort : (le : A → A → Bool) {a : A} {xs : List A} → Memᴰ a xs → Memᴰ a (sort le xs)
  mem-sort le (Memᴰ.head {x = x} {xs} e) = rw e (mem-insert_sorted_new le x (sort le xs))
  mem-sort le (Memᴰ.tail {x = x} m) = mem-insert_sorted le x (mem-sort le m)

module _ {ℓ κ} {A : Type ℓ} {B : Type κ} where
  pub mem-flat_map :
      (f : A → List B) {a : A} {b : B} {xs : List A}
      → Memᴰ a xs
      → Memᴰ b (f a)
      → Memᴰ b (flat_map f xs)
  unfolding flat_map
  mem-flat_map f (Memᴰ.head {xs = xs} e) m = mem-append_left (flat_map f xs) (rw e at m)
  mem-flat_map f (Memᴰ.tail {x = x} n) m = mem-append_right (f x) (mem-flat_map f n m)

module _ {ℓ κ} {K : Type ℓ} {V : Type κ} ⦃e : Eq K⦄ where
  pub mem-values : (k : K) (v : V) (d : Dict K V) → lookup k d ≡ some v → Memᴰ v (values d)
  mem-values k v [] at = cc
  mem-values k v ((j, w) ∷ d) at = elim (Bool-cases (e.beq j k)) [
    | inl same ↦ Memᴰ.head (ground arith)
    | inr other ↦ Memᴰ.tail (mem-values k v d (rw other at at))
  ]

module _ {ℓ κ} {K : Type ℓ} {V : Type κ} ⦃e : Eq K⦄ where
  -- An item stands in the group of its key.
  pub mem-group_by :
      (key : V → K) {a : V} {xs : List V}
      → Memᴰ a xs
      → Memᴰ (filter (λ x. e.beq (key x) (key a)) xs) (values (group_by key xs))
  mem-group_by key {a} {xs} m = elim (Option-cases (lookup (key a) (group_by key xs))) [
    | inr (g, at) ↦
        let same : g ≡ filter (λ x. e.beq (key x) (key a)) xs =
          rw at at (lookup-group_by key (key a) xs) in
        rw same at (mem-values (key a) g (group_by key xs) at)
    | inl missing ↦
        let nothing : [] ≡ filter (λ x. e.beq (key x) (key a)) xs =
          rw missing at (lookup-group_by key (key a) xs) in
        let here = mem-filter (λ x. e.beq (key x) (key a)) m (beq_refl (key a)) in
        elim (rw (← nothing) at here) [ ]
  ]

module _ {ℓ} {A : Type ℓ} ⦃e : Eq A⦄ where
  pub contains-append_one :
      (xs : List A) (r q : A) → contains (xs ++ r ∷ []) q ≡ (contains xs q || e.beq r q)
  contains-append_one [] r q = ground arith
  contains-append_one (x ∷ xs) r q = ground (arith, contains-append_one xs r q)
