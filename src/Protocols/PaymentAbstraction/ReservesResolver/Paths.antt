-- ===== src/Protocols/PaymentAbstraction/ReservesResolver/Paths.antt =====
-- The path to an inflow is short, and passes no address twice in a row.
use chainlink_economic_ledge.Prelude.{
  ℕ, suc, ◌+◌, ◌≤◌, String, Option, none, some, List, [], ◌∷◌, ◌++◌, length, length-append, false,
  get_last?, string_eq, ◌==◌, ◌≡◌, refl, sym, ◌∙◌, arith, Bool-cases, Option-cases, inl, inr,
}
use chainlink_economic_ledge.Prelude.Text.{lower}
use chainlink_economic_ledge.Decoder.TraceTree.{RawTrace, frame}
use chainlink_economic_ledge.Protocols.PaymentAbstraction.ReservesResolver.{
  ReservesInflow, call_at, calls_of, extend_path, walk_down, enrich_inflow_with_path,
}

-- No two neighbours are equal.
abbrev pub HasNoRepeat : List String → Type 0
HasNoRepeat [] = Unit
HasNoRepeat (x ∷ []) = Unit
HasNoRepeat (x ∷ y ∷ rest) = ((x == y) ≡ false) × HasNoRepeat (y ∷ rest)

append_one-HasNoRepeat :
    (path : List String) (addr : String)
    → HasNoRepeat path
    → ((last : String) → get_last? path ≡ some last → (last == addr) ≡ false)
    → HasNoRepeat (path ++ addr ∷ [])
append_one-HasNoRepeat [] addr h fresh = tt
append_one-HasNoRepeat (x ∷ []) addr h fresh = (fresh x refl, tt)
append_one-HasNoRepeat (x ∷ y ∷ rest) addr h fresh =
    (h.0, append_one-HasNoRepeat (y ∷ rest) addr h.1 fresh)

-- A path of at most `n` addresses without a repetition.
abbrev pub IsPath : ℕ → List String → Type 0
IsPath n path = HasNoRepeat path × (length path ≤ n)

extend_path-IsPath :
    (n : ℕ) (path : List String) (to_addr : Option String)
    → IsPath n path
    → IsPath (suc n) (extend_path path to_addr)
extend_path-IsPath n path none h = (h.0, omega (arith, h.1))
extend_path-IsPath n path (some to_addr) h =
    let addr = lower to_addr in
    let longer : length (path ++ addr ∷ []) ≤ suc n =
      omega (arith, h.1, length-append path (addr ∷ [])) in
    elim (Option-cases (get_last? path)) [
      | inl empty ↦
          rw (extend_path, empty)
            (
              append_one-HasNoRepeat path addr h.0
                  (λ last at. let clash : none ≡ some last = sym empty ∙ at in cc clash),
              longer,
            )
      | inr (last, at) ↦ elim (Bool-cases (last == addr)) [
        | inl same ↦ rw (extend_path, at, same) (h.0, omega (arith, h.1))
        | inr other ↦
            rw (extend_path, at, other)
              (
                append_one-HasNoRepeat path addr h.0 (λ last' at'.
                    let both : some last ≡ some last' = sym at ∙ at' in
                    let e : last ≡ last' = cc both in rw e at other),
                longer,
              )
      ]
    ]

walk_down-IsPath :
    (n : ℕ) (path : List String) (root : RawTrace) (address : List ℕ)
    → IsPath n path
    → IsPath (n + length address) (walk_down path root address)
unfolding walk_down
walk_down-IsPath n path root [] h = (h.0, omega (arith, h.1))
walk_down-IsPath n path root (idx ∷ rest) h = elim (Option-cases (call_at (calls_of root) idx)) [
  | inl past ↦ rw (walk_down, past) (h.0, omega (arith, h.1))
  | inr (child, found) ↦
      let below =
        walk_down-IsPath (suc n) (extend_path path (frame child).to_addr) child rest
          (extend_path-IsPath n path (frame child).to_addr h) in
      rw (walk_down, found) (below.0, omega (arith, below.1))
]

-- The enriched path has at most one address for each step of the trace address, and no address
-- follows itself; the other fields of the inflow stay.
pub enrich_inflow_with_path-IsPath :
    (inflow : ReservesInflow) (root : RawTrace) (address : List ℕ)
    → let rich = enrich_inflow_with_path inflow root address in
      IsPath (length address) rich.path
      × (rich.amount ≡ inflow.amount)
      × (rich.tx_hash ≡ inflow.tx_hash)
      × (rich.sender ≡ inflow.sender)
unfolding enrich_inflow_with_path
enrich_inflow_with_path-IsPath inflow root address =
    let below = walk_down-IsPath 0 [] root address (tt, omega arith) in
    ((below.0, omega (arith, below.1)), refl, refl, refl)
