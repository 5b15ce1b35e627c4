-- ===== src/Reconciliation/Balances/Ranges.antt =====
-- The net movement of an address: what it received less what it sent, additive over block ranges;
-- and the pool check passes where the balance changes only by the movements.
use chainlink_economic_ledge.Prelude.{
  ℕ, zero, suc, ◌+◌, ◌≤◌, String, List, [], ◌∷◌, Bool, true, false, ◌||◌, ◌≡◌, refl, sym, ℤ, pos,
  ◌+ℤ◌, ◌-ℤ◌, eqb_ℤ_iff, int_laws, ltb, leb, ◌&&◌, ◌==◌, string_eq, if◌then◌else◌, arith, inl, inr,
  Bool-cases, sum_ℤ, map, filter,
}
use chainlink_economic_ledge.Prelude.Text.{lower, lower_idem}
use chainlink_economic_ledge.Reconciliation.Movement.{TokenMovement}
use chainlink_economic_ledge.Reconciliation.Balances.{
  BalanceProvider, delta_from, compute_balance_delta, reconcile_pool_movement_vs_balance,
  apply_movement,
}

abbrev in_range : ℕ → ℕ → TokenMovement → Bool
in_range from to m = leb from m.block_number && leb m.block_number to

-- What the movements in a range bring to an address, and take from it.
abbrev pub received : String → ℕ → ℕ → List TokenMovement → ℤ
received target from to ms =
    sum_ℤ (map (λ m. m.amount) (filter (λ m. in_range from to m && lower m.to_addr == target) ms))

abbrev pub sent : String → ℕ → ℕ → List TokenMovement → ℤ
sent target from to ms =
    sum_ℤ (map (λ m. m.amount) (filter (λ m. in_range from to m && lower m.from_addr == target) ms))

outside_range :
    (from to : ℕ) (m : TokenMovement)
    → in_range from to m ≡ false
    → (ltb m.block_number from || ltb to m.block_number) ≡ true
outside_range from to m h = ground arith

inside_range :
    (from to : ℕ) (m : TokenMovement)
    → in_range from to m ≡ true
    → (ltb m.block_number from || ltb to m.block_number) ≡ false
inside_range from to m h = ground arith

delta_from-net :
    (target : String) (from to : ℕ) (delta : ℤ) (ms : List TokenMovement)
    → delta_from target from to delta ms
      ≡ delta +ℤ (received target from to ms -ℤ sent target from to ms)
unfolding delta_from
delta_from-net target from to delta [] = omega int_laws
delta_from-net target from to delta (m ∷ ms) = elim (Bool-cases (in_range from to m)) [
  | inr outside ↦
      rw (outside_range from to m outside, outside) (delta_from-net target from to delta ms)
  | inl inside ↦
      rw (inside_range from to m inside, inside)
        (rw (delta_from-net target from to (apply_movement target delta m) ms)
          (split (lower m.to_addr == target) (lower m.from_addr == target)))
]
  where
    split :
        (t f : Bool)
        → (let got = (if t then delta +ℤ m.amount else delta) in if f then got -ℤ m.amount else got)
            +ℤ (received target from to ms -ℤ sent target from to ms)
          ≡ delta
            +ℤ (sum_ℤ (
                  map
                    (λ m. m.amount)
                    (if t
                      then m ∷ filter (λ m. in_range from to m && lower m.to_addr == target) ms
                      else filter (λ m. in_range from to m && lower m.to_addr == target) ms))
                -ℤ sum_ℤ (
                    map
                      (λ m. m.amount)
                      (if f
                        then m ∷ filter (λ m. in_range from to m && lower m.from_addr == target) ms
                        else filter (λ m. in_range from to m && lower m.from_addr == target) ms)))
    split true true = omega int_laws
    split true false = omega int_laws
    split false true = omega int_laws
    split false false = omega int_laws

-- The delta of an address is what it received in the range less what it sent.
pub compute_balance_delta-net :
    (ms : List TokenMovement) (address : String) (from to : ℕ)
    → compute_balance_delta ms address from to
      ≡ received (lower address) from to ms -ℤ sent (lower address) from to ms
unfolding compute_balance_delta
compute_balance_delta-net ms address from to =
    rw (delta_from-net (lower address) from to (pos 0) ms) (omega int_laws)

abbrev sum_where : (TokenMovement → Bool) → List TokenMovement → ℤ
sum_where p ms = sum_ℤ (map (λ m. m.amount) (filter p ms))

sum_where-split :
    (p q r : TokenMovement → Bool)
    → ((m : TokenMovement) → ((p m || q m) ≡ r m) × ((p m && q m) ≡ false))
    → (ms : List TokenMovement) → sum_where r ms ≡ sum_where p ms +ℤ sum_where q ms
sum_where-split p q r h [] = omega int_laws
sum_where-split p q r h (m ∷ ms) = split (sum_where-split p q r h ms) (p m) (q m) (r m) (h m)
  where
    split :
        sum_where r ms ≡ sum_where p ms +ℤ sum_where q ms
        → (a b c : Bool) → ((a || b) ≡ c) × ((a && b) ≡ false)
        → sum_ℤ (map (λ m. m.amount) (if c then m ∷ filter r ms else filter r ms))
          ≡ sum_ℤ (map (λ m. m.amount) (if a then m ∷ filter p ms else filter p ms))
            +ℤ sum_ℤ (map (λ m. m.amount) (if b then m ∷ filter q ms else filter q ms))
    split ih true true c k = cc k.1
    split ih true false true k = rw ih (omega int_laws)
    split ih true false false k = cc k.0
    split ih false true true k = rw ih (omega int_laws)
    split ih false true false k = cc k.0
    split ih false false true k = cc k.0
    split ih false false false k = ih

range_split :
    (from mid to b : ℕ) (side : Bool)
    → from ≤ suc mid
    → mid ≤ to
    → (((leb from b && leb b mid) && side || (leb (suc mid) b && leb b to) && side)
        ≡ ((leb from b && leb b to) && side))
      × ((((leb from b && leb b mid) && side) && ((leb (suc mid) b && leb b to) && side)) ≡ false)
range_split from mid to b side low high = (ground arith, ground arith)

-- The delta over a range is the sum of the deltas over its two parts.
pub compute_balance_delta-split :
    (ms : List TokenMovement) (address : String) (from mid to : ℕ)
    → from ≤ suc mid
    → mid ≤ to
    → compute_balance_delta ms address from to
      ≡ compute_balance_delta ms address from mid +ℤ compute_balance_delta ms address (suc mid) to
compute_balance_delta-split ms address from mid to low high =
    let t = lower address in
    let part = λ (addr : TokenMovement → String).
      sum_where-split (λ m. in_range from mid m && lower (addr m) == t)
        (λ m. in_range (suc mid) to m && lower (addr m) == t)
        (λ m. in_range from to m && lower (addr m) == t)
        (λ m. range_split from mid to m.block_number (lower (addr m) == t) low high) ms in
    rw
      (
        compute_balance_delta-net ms address from to,
        compute_balance_delta-net ms address from mid,
        compute_balance_delta-net ms address (suc mid) to,
        part (λ m. m.to_addr),
        part (λ m. m.from_addr),
      )
      (omega int_laws)

sum_where_none :
    (p : TokenMovement → Bool)
    → ((m : TokenMovement) → p m ≡ false)
    → (ms : List TokenMovement) → sum_where p ms ≡ pos 0
sum_where_none p h [] = refl
sum_where_none p h (m ∷ ms) = rw (h m) (sum_where_none p h ms)

compute_balance_delta_empty :
    (ms : List TokenMovement) (address : String) (k : ℕ)
    → compute_balance_delta ms address (suc k) k ≡ pos 0
compute_balance_delta_empty ms address k =
    let t = lower address in
    let none_of = λ (addr : TokenMovement → String).
      sum_where_none (λ m. in_range (suc k) k m && lower (addr m) == t) (λ m. ground arith) ms in
    rw
      (
        compute_balance_delta-net ms address (suc k) k,
        none_of (λ m. m.to_addr),
        none_of (λ m. m.from_addr),
      )
      (omega int_laws)

lower_pool :
    (ms : List TokenMovement) (pool : String) (from to : ℕ)
    → compute_balance_delta ms (lower pool) from to ≡ compute_balance_delta ms pool from to
unfolding compute_balance_delta
lower_pool ms pool from to = rw (lower_idem pool)

module _ (client : BalanceProvider) (token pool : String) (ms : List TokenMovement)
    (follows : (b : ℕ)
      → client token (lower pool) (pos (suc b)) -ℤ client token (lower pool) (pos b)
        ≡ compute_balance_delta ms pool (suc b) (suc b)) where
  balance_change :
      (k n : ℕ) (to : ℕ)
      → to ≡ n + k
      → client token (lower pool) (pos to) -ℤ client token (lower pool) (pos k)
        ≡ compute_balance_delta ms pool (suc k) to
  balance_change k zero to e =
      let same : to ≡ k = omega arith in
      rw same (rw (compute_balance_delta_empty ms pool k) (omega int_laws))
  balance_change k (suc n) to e =
      let same : to ≡ suc (n + k) = omega arith in
      rw same (
        rw
          (
            compute_balance_delta-split ms pool (suc k) (n + k) (suc (n + k)) (omega arith)
                (omega arith),
            sym (balance_change k n (n + k) refl),
            sym (follows (n + k)),
          )
          (omega int_laws))

  -- Where the pool's on-chain balance changes from each block to the next by the movements of that
  -- block, the pool is found consistent, with no difference, over any range that starts after
  -- block zero.
  pub reconcile_pool-consistent :
      (k n : ℕ)
      → let r = reconcile_pool_movement_vs_balance client token pool ms (suc k) (n + k) in
        (r.is_consistent ≡ true) × (r.diff ≡ pos 0)
  unfolding reconcile_pool_movement_vs_balance
  reconcile_pool-consistent k n =
      let change = balance_change k n (n + k) refl in
      let before : pos (suc k) -ℤ pos 1 ≡ pos k = omega int_laws in
      let zero_diff : client token (lower pool) (pos (n + k))
            -ℤ client token (lower pool) (pos (suc k) -ℤ pos 1)
            -ℤ compute_balance_delta ms (lower pool) (suc k) (n + k)
          ≡ pos 0 =
        rw (before, lower_pool ms pool (suc k) (n + k), sym change) (omega int_laws) in
      ((eqb_ℤ_iff _ _).1 zero_diff, zero_diff)
