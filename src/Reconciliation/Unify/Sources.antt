-- ===== src/Reconciliation/Unify/Sources.antt =====
-- The dictionary by id: each record in it comes from one of the movements observed.
use mathlib.Core.List.{Memᴰ}
use chainlink_economic_ledge.Prelude.{
  String, some, List, [], ◌∷◌, ◌≡◌, refl, inl, inr, ◌==◌, string_eq, int_eq, pair_eq, Bool-cases,
  Option-cases, arith, All,
}
use chainlink_economic_ledge.Prelude.Dict.{Dict, lookup, insert, lookup-insert}
use chainlink_economic_ledge.Reconciliation.Movement.{TokenMovement}
use chainlink_economic_ledge.Reconciliation.Unify.{
  bucket_key, absorb, index_logs, add_trace, add_traces,
}

-- A record that has the id, the place, the parties and the amount of an observed movement.
pub record IsObserved (observed : List TokenMovement) (u : TokenMovement) : Type 0 where
  pub source : TokenMovement
  pub member : Memᴰ source observed
  pub same_id : u.movement_id ≡ source.movement_id
  pub same_key : bucket_key u ≡ bucket_key source
  pub same_block : u.block_number ≡ source.block_number

module _ (observed : List TokenMovement) where
  -- Each record stands under its id.
  abbrev pub IsIndex : Dict String TokenMovement → Type 0
  IsIndex d =
      (k : String) (u : TokenMovement)
      → lookup k d ≡ some u
      → (u.movement_id ≡ k) × IsObserved observed u

  pub own : (m : TokenMovement) → Memᴰ m observed → IsObserved observed m
  own m mem = record {
    source = m;
    member = mem;
    same_id = refl;
    same_key = refl;
    same_block = refl;
  }

  pub absorb-IsObserved :
      (u t : TokenMovement) → IsObserved observed u → IsObserved observed (absorb u t)
  unfolding absorb
  absorb-IsObserved u t h = record {
    source = h.source;
    member = h.member;
    same_id = h.same_id;
    same_key = h.same_key;
    same_block = h.same_block;
  }

  insert-IsIndex :
      (u : TokenMovement) (d : Dict String TokenMovement)
      → IsObserved observed u
      → IsIndex d
      → IsIndex (insert u.movement_id u d)
  insert-IsIndex u d h index k v at = elim (Bool-cases (u.movement_id == k)) [
    | inl same ↦
        let it : u ≡ v = ground (arith, lookup-insert u.movement_id k u d) in
        rw (← it) ((string_eq.beq_iff u.movement_id k).0 same, h)
    | inr other ↦ index k v (ground (arith, lookup-insert u.movement_id k u d))
  ]

  pub index_logs-IsIndex :
      (d : Dict String TokenMovement) (logs : List TokenMovement)
      → All (λ m. Memᴰ m observed) logs
      → IsIndex d
      → IsIndex (index_logs d logs)
  unfolding index_logs
  index_logs-IsIndex d [] h index = index
  index_logs-IsIndex d (m ∷ logs) h index =
      index_logs-IsIndex (insert m.movement_id m d) logs h.1 (insert-IsIndex m d (own m h.0) index)

  pub add_trace-IsIndex :
      (d : Dict String TokenMovement) (t : TokenMovement)
      → Memᴰ t observed
      → IsIndex d
      → IsIndex (add_trace d t)
  unfolding add_trace
  add_trace-IsIndex d t h index = elim (Option-cases (lookup t.movement_id d)) [
    | inl new ↦ rw (add_trace, new) (insert-IsIndex t d (own t h) index)
    | inr (u, at) ↦
        let (under, seen) = index t.movement_id u at in
        rw (add_trace, at, ← under)
          (insert-IsIndex (absorb u t) d (absorb-IsObserved u t seen) index)
  ]

  pub add_traces-IsIndex :
      (d : Dict String TokenMovement) (traces : List TokenMovement)
      → All (λ m. Memᴰ m observed) traces
      → IsIndex d
      → IsIndex (add_traces d traces)
  unfolding add_traces
  add_traces-IsIndex d [] h index = index
  add_traces-IsIndex d (t ∷ traces) h index =
      add_traces-IsIndex (add_trace d t) traces h.1 (add_trace-IsIndex d t h.0 index)
