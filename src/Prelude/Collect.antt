-- ===== src/Prelude/Collect.antt =====
-- A list comprehension whose element may raise: the whole list, or `none`.
use chainlink_economic_ledge.Prelude.{
  Option, none, some, List, [], ◌∷◌, ◌++◌, ◌≡◌, refl, sym, map_some,
}

module _ {ℓ} {B : Type ℓ} where
  abbrev pub cons_some : Option B → Option (List B) → Option (List B)
  cons_some none later = none
  cons_some (some b) later = map_some (λ bs. b ∷ bs) later

  abbrev pub append_some : Option (List B) → Option (List B) → Option (List B)
  append_some none later = none
  append_some (some bs) later = map_some (λ cs. bs ++ cs) later

  append_some-nil : (later : Option (List B)) → append_some (some []) later ≡ later
  append_some-nil none = refl
  append_some-nil (some cs) = refl

  cons_some-append :
      (b : Option B) (bs later : Option (List B))
      → cons_some b (append_some bs later) ≡ append_some (cons_some b bs) later
  cons_some-append none bs later = refl
  cons_some-append (some b) none later = refl
  cons_some-append (some b) (some bs) none = refl
  cons_some-append (some b) (some bs) (some cs) = refl

module _ {ℓ κ} {A : Type ℓ} {B : Type κ} (f : A → Option B) where
  -- `[f(x) for x in xs]`
  abbrev pub collect : List A → Option (List B)
  collect [] = some []
  collect (x ∷ xs) = cons_some (f x) (collect xs)

  pub collect-append : (xs ys : List A) → collect (xs ++ ys) ≡ append_some (collect xs) (collect ys)
  collect-append [] ys = sym (append_some-nil (collect ys))
  collect-append (x ∷ xs) ys =
      rw (collect-append xs ys) (cons_some-append (f x) (collect xs) (collect ys))
