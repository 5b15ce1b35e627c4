-- ===== src/Reconciliation/MovementBuilder/Occurrence.antt =====
-- The occurrence index of a traced call.
use chainlink_economic_ledge.Prelude.{
  ℕ, ◌+◌, ◌*◌, ◌%◌, ◌<◌, List, [], ◌∷◌, ◌≡◌, refl, length, All, arith,
}
use chainlink_economic_ledge.Reconciliation.MovementBuilder.{index_from, trace_address_to_index}

-- The components fit in sixteen bits.
abbrev pub AreSmall : List ℕ → Type 0
AreSmall = All (λ c. c < 65536)

digits :
    (n m x y : ℕ)
    → x < 65536
    → y < 65536
    → n * 65536 + x % 65536 ≡ m * 65536 + y % 65536
    → (n ≡ m) × (x ≡ y)
digits n m x y hx hy e = (omega arith, omega arith)

index_from-injective :
    (n m : ℕ) (xs ys : List ℕ)
    → length xs ≡ length ys
    → AreSmall xs
    → AreSmall ys
    → index_from n xs ≡ index_from m ys
    → (n ≡ m) × (xs ≡ ys)
unfolding index_from
index_from-injective n m [] [] l hx hy e = (e, refl)
index_from-injective n m [] (y ∷ ys) l hx hy e = absurd (omega arith)
index_from-injective n m (x ∷ xs) [] l hx hy e = absurd (omega arith)
index_from-injective n m (x ∷ xs) (y ∷ ys) l hx hy e =
    let (first, rest) =
      index_from-injective (n * 65536 + x % 65536) (m * 65536 + y % 65536) xs ys (omega arith) hx.1
        hy.1 e in
    let (head, digit) = digits n m x y hx.0 hy.0 first in (head, cc (digit, rest))

-- Two trace addresses of one length, of components below 2 ^ 16, have one index only if they are
-- the same.
pub trace_address_to_index_injective :
    (xs ys : List ℕ)
    → length xs ≡ length ys
    → AreSmall xs
    → AreSmall ys
    → trace_address_to_index xs ≡ trace_address_to_index ys
    → xs ≡ ys
unfolding trace_address_to_index
trace_address_to_index_injective xs ys l hx hy e = (index_from-injective 0 0 xs ys l hx hy e).1

-- A leading zero component does not change the index of a trace address.
pub trace_address_to_index_zero :
    (xs : List ℕ) → trace_address_to_index (0 ∷ xs) ≡ trace_address_to_index xs
unfolding trace_address_to_index index_from
trace_address_to_index_zero xs = refl
