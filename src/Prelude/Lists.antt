-- ===== src/Prelude/Lists.antt =====
-- Lists measured and searched by native numbers and Boolean tests, under the library's names.
use Prim.Native.Nat.{ℕ, zero, suc, ◌+◌, ◌≤◌}
use mathlib.Core.Path.{◌≡◌, refl, ap, sym, subst}
use mathlib.Core.Logic.{inl, inr}
use mathlib.Core.Bool.{Bool, true, false, ◌&&◌, ◌||◌}
use mathlib.Core.List.{List, [], ◌∷◌, ◌++◌, map, Memᴰ, Sublistᴰ}
use mathlib.Core.Option.{Option, none, some}
use native.Mathlib.Omega.{arith}
use chainlink_economic_ledge.Prelude.Tests.{if◌then◌else◌, Bool-cases}

module _ {ℓ} {A : Type ℓ} where
  abbrev pub length : List A → ℕ
  length [] = 0
  length (x ∷ xs) = suc (length xs)

  abbrev pub get_elem? : List A → ℕ → Option A
  get_elem? [] i = none
  get_elem? (x ∷ xs) zero = some x
  get_elem? (x ∷ xs) (suc i) = get_elem? xs i

  abbrev pub get_last? : List A → Option A
  get_last? [] = none
  get_last? (x ∷ []) = some x
  get_last? (x ∷ y ∷ xs) = get_last? (y ∷ xs)

  -- `[x for x in xs if p(x)]`
  abbrev pub filter : (A → Bool) → List A → List A
  filter p [] = []
  filter p (x ∷ xs) = let rest = filter p xs in if p x then x ∷ rest else rest

  abbrev pub any : (A → Bool) → List A → Bool
  any p [] = false
  any p (x ∷ xs) = p x || any p xs

  abbrev pub all : (A → Bool) → List A → Bool
  all p [] = true
  all p (x ∷ xs) = p x && all p xs

  -- `next((x for x in xs if p(x)), None)`
  abbrev pub find? : (A → Bool) → List A → Option A
  find? p [] = none
  find? p (x ∷ xs) = if p x then some x else find? p xs

  abbrev pub take : ℕ → List A → List A
  take zero xs = []
  take (suc n) [] = []
  take (suc n) (x ∷ xs) = x ∷ take n xs

  abbrev pub drop : ℕ → List A → List A
  drop zero xs = xs
  drop (suc n) [] = []
  drop (suc n) (x ∷ xs) = drop n xs

  -- A predicate by recursion computes to tuples, which the tactics read and build.
  abbrev pub All {κ} : (A → Type κ) → List A → Type κ
  All P [] = Unit
  All P (x ∷ xs) = P x × All P xs

module _ {ℓ} {A : Type ℓ} where
  pub length-append : (xs ys : List A) → length (xs ++ ys) ≡ length xs + length ys
  length-append [] ys = omega arith
  length-append (x ∷ xs) ys = omega (arith, length-append xs ys)

  pub length-map {κ} : {B : Type κ} (f : A → B) (xs : List A) → length (map f xs) ≡ length xs
  length-map f [] = refl
  length-map f (x ∷ xs) = ap suc (length-map f xs)

  pub length-filter-le : (p : A → Bool) (xs : List A) → length (filter p xs) ≤ length xs
  length-filter-le p [] = omega arith
  length-filter-le p (x ∷ xs) = ground (arith, length-filter-le p xs)

  pub filter-append :
      (p : A → Bool) (xs ys : List A) → filter p (xs ++ ys) ≡ filter p xs ++ filter p ys
  filter-append p [] ys = refl
  filter-append p (x ∷ xs) ys = ground (arith, filter-append p xs ys)

  pub All-append {κ} : (P : A → Type κ) (xs ys : List A) → All P xs → All P ys → All P (xs ++ ys)
  All-append P [] ys hx hy = hy
  All-append P (x ∷ xs) ys hx hy = (hx.0, All-append P xs ys hx.1 hy)

  pub All-imp {κ θ} :
      {P : A → Type κ} {Q : A → Type θ} (imp : (a : A) → P a → Q a) (xs : List A)
      → All P xs
      → All Q xs
  All-imp imp [] h = tt
  All-imp imp (x ∷ xs) h = (imp x h.0, All-imp imp xs h.1)

  pub All-of {κ} : (P : A → Type κ) → ((a : A) → P a) → (xs : List A) → All P xs
  All-of P h [] = tt
  All-of P h (x ∷ xs) = (h x, All-of P h xs)

  pub All-filter {κ} :
      (P : A → Type κ) (p : A → Bool)
      → ((a : A) → p a ≡ true → P a)
      → (xs : List A) → All P (filter p xs)
  All-filter P p h [] = tt
  All-filter P p h (x ∷ xs) = elim (Bool-cases (p x)) [
    | inl e ↦ rw e (h x e, All-filter P p h xs)
    | inr e ↦ rw e (All-filter P p h xs)
  ]

module _ {ℓ κ θ} {A : Type ℓ} {B : Type κ} where
  pub All-map :
      (P : B → Type θ) (f : A → B) (xs : List A) → All (λ a. P (f a)) xs → All P (map f xs)
  All-map P f [] h = tt
  All-map P f (x ∷ xs) h = (h.0, All-map P f xs h.1)

module _ {ℓ} {A : Type ℓ} where
  -- What `find?` returns passes the test and is an item.
  pub find?-some {κ} :
      (P : A → Type κ) (p : A → Bool) (xs : List A) {a : A}
      → All P xs
      → find? p xs ≡ some a
      → P a × (p a ≡ true)
  find?-some P p [] h e = cc
  find?-some P p (x ∷ xs) {a} h e = elim (Bool-cases (p x)) [
    | inl t ↦ let same : x ≡ a = ground arith in rw (← same) (h.0, t)
    | inr f ↦ find?-some P p xs h.1 (ground arith)
  ]

  -- Where `find?` returns nothing, no item passes.
  pub find?-none : (p : A → Bool) (xs : List A) → find? p xs ≡ none → All (λ a. p a ≡ false) xs
  find?-none p [] e = tt
  find?-none p (x ∷ xs) e = elim (Bool-cases (p x)) [
    | inl t ↦ ground arith
    | inr f ↦ (f, find?-none p xs (ground arith))
  ]

  pub All-Memᴰ {κ} : (P : A → Type κ) {a : A} {xs : List A} → All P xs → Memᴰ a xs → P a
  All-Memᴰ P h (Memᴰ.head e) = subst P (sym e) h.0
  All-Memᴰ P h (Memᴰ.tail m) = All-Memᴰ P h.1 m

  pub All-sublist {κ} : (P : A → Type κ) {c xs : List A} → Sublistᴰ c xs → All P xs → All P c
  All-sublist P Sublistᴰ.slnil h = tt
  All-sublist P (Sublistᴰ.cons s) h = All-sublist P s h.1
  All-sublist P (Sublistᴰ.cons-cons e s) h = (subst P (sym e) h.0, All-sublist P s h.1)

  pub All-self : (xs : List A) → All (λ a. Memᴰ a xs) xs
  All-self [] = tt
  All-self (x ∷ xs) = (Memᴰ.head refl, All-imp (λ a m. Memᴰ.tail m) xs (All-self xs))

  -- What a filter keeps are items that pass.
  pub All-filter_mem {κ} :
      (P : A → Type κ) (p : A → Bool) (xs : List A)
      → All P xs
      → All (λ a. P a × (p a ≡ true)) (filter p xs)
  All-filter_mem P p [] h = tt
  All-filter_mem P p (x ∷ xs) h = elim (Bool-cases (p x)) [
    | inl e ↦ rw e ((h.0, e), All-filter_mem P p xs h.1)
    | inr e ↦ rw e (All-filter_mem P p xs h.1)
  ]
