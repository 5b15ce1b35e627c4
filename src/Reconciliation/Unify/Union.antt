-- ===== src/Reconciliation/Unify/Union.antt =====
-- The union of the log and the trace movements keeps all evidence.
use mathlib.Core.List.{Memᴰ, flat_map}
use chainlink_economic_ledge.Prelude.{
  String, some, List, [], ◌∷◌, ◌++◌, map, true, false, ◌≡◌, ◌≢◌, refl, sym, ◌∙◌, inl, inr, ◌==◌,
  string_eq, int_eq, pair_eq, pair_beq_iff, contains, Option-cases, arith, All, All-imp, All-self,
  All-filter, All-Memᴰ, filter, AreDistinct, beq_refl,
}
use chainlink_economic_ledge.Prelude.Dict.{
  Dict, lookup, insert, lookup-insert, lookup-insert_self, values, group_by,
}
use chainlink_economic_ledge.Prelude.Members.{
  mem-append_left, mem-append_right, mem-append_split, mem-sort, mem-flat_map, mem-values,
  mem-group_by, mem-filter,
}
use chainlink_economic_ledge.Reconciliation.Movement.{TokenMovement}
use chainlink_economic_ledge.Reconciliation.Unify.{
  bucket_key, absorb, index_logs, add_trace, add_traces, resolve_bucket, unify_unsorted,
  unify_movements, le_movement,
}
use chainlink_economic_ledge.Reconciliation.Unify.Sources.{
  IsIndex, index_logs-IsIndex, add_trace-IsIndex,
}
use chainlink_economic_ledge.Reconciliation.Unify.Evidence.{
  IsKept, absorb-Keeps_right, add_traces-IsKept,
}
use chainlink_economic_ledge.Reconciliation.Unify.Buckets.{IsResolved, resolve_bucket-IsResolved}

abbrev pub ids : List TokenMovement → List String
ids = map (λ m. m.movement_id)

-- Movements with one id have one transaction, parties and amount.
abbrev pub HaveStableIds : List TokenMovement → Type 0
HaveStableIds observed =
    All (λ a. All (λ b. a.movement_id ≡ b.movement_id → bucket_key a ≡ bucket_key b) observed)
      observed

index_logs-absent :
    (k : String) (d : Dict String TokenMovement) (logs : List TokenMovement)
    → contains (ids logs) k ≡ false
    → lookup k (index_logs d logs) ≡ lookup k d
unfolding index_logs
index_logs-absent k d [] h = refl
index_logs-absent k d (m ∷ logs) h =
    index_logs-absent k (insert m.movement_id m d) logs (ground arith)
    ∙ ground (arith, lookup-insert m.movement_id k m d)

index_logs_own :
    (m : TokenMovement) (d : Dict String TokenMovement) (logs : List TokenMovement)
    → Memᴰ m logs
    → AreDistinct (ids logs)
    → lookup m.movement_id (index_logs d logs) ≡ some m
unfolding index_logs
index_logs_own m d [] t h = elim t [ ]
index_logs_own m d (x ∷ logs) (Memᴰ.head e) h = rw e (
    index_logs-absent x.movement_id (insert x.movement_id x d) logs h.0
    ∙ lookup-insert_self x.movement_id x d)
index_logs_own m d (x ∷ logs) (Memᴰ.tail t) h =
    index_logs_own m (insert x.movement_id x d) logs t h.1

module _ (observed : List TokenMovement) (stable : HaveStableIds observed) (e : String)
    (nonempty : e ≢ "") where
  add_trace_own :
      (t : TokenMovement) (d : Dict String TokenMovement)
      → Memᴰ t observed
      → IsIndex observed d
      → contains t.evidence_ids e ≡ true
      → IsKept t e (add_trace d t)
  unfolding add_trace
  add_trace_own t d mem index has = elim (Option-cases (lookup t.movement_id d)) [
    | inl new ↦
        rw (add_trace, new)
          (record {
            found = t;
            at = lookup-insert_self t.movement_id t d;
            keeps = record { key = refl; evidence = has };
          })
    | inr (u, there) ↦
        let (under, seen) = index t.movement_id u there in
        let one_key : bucket_key u ≡ bucket_key t =
          seen.same_key
          ∙ All-Memᴰ
              (λ b. seen.source.movement_id ≡ b.movement_id → bucket_key seen.source ≡ bucket_key b)
              (All-Memᴰ
                (λ a.
                  All (λ b. a.movement_id ≡ b.movement_id → bucket_key a ≡ bucket_key b) observed)
                stable seen.member)
              mem (sym seen.same_id ∙ under) in
        rw (add_trace, there)
          (record {
            found = absorb u t;
            at = lookup-insert_self t.movement_id (absorb u t) d;
            keeps =
                absorb-Keeps_right t e u t nonempty one_key (record { key = refl; evidence = has });
          })
  ]

  add_traces_own :
      (t : TokenMovement) (d : Dict String TokenMovement) (ts : List TokenMovement)
      → Memᴰ t ts
      → All (λ m. Memᴰ m observed) ts
      → IsIndex observed d
      → contains t.evidence_ids e ≡ true
      → IsKept t e (add_traces d ts)
  unfolding add_traces
  add_traces_own t d [] m mem index has = elim m [ ]
  add_traces_own t d (x ∷ ts) (Memᴰ.head same) mem index has =
      add_traces-IsKept t e (add_trace d x) ts
        (rw same (add_trace_own x d mem.0 index (rw same at has)))
  add_traces_own t d (x ∷ ts) (Memᴰ.tail later) mem index has =
      add_traces_own t (add_trace d x) ts later mem.1 (add_trace-IsIndex observed d x mem.0 index)
        has

-- What stands under an id in the dictionary is kept by the union.
kept-IsResolved :
    (m : TokenMovement) (e : String)
    → e ≢ ""
    → (d : Dict String TokenMovement) → IsKept m e d
    → IsResolved m e (flat_map resolve_bucket (values (group_by bucket_key (values d))))
kept-IsResolved m e nonempty d h =
    let u = h.found in
    let here = mem-values m.movement_id u d h.at in
    let bucket = filter (λ x. bucket_key x == bucket_key u) (values d) in
    let alike =
      All-filter (λ x. bucket_key x ≡ bucket_key u) (λ x. bucket_key x == bucket_key u)
        (λ x. (pair_beq_iff (bucket_key x) (bucket_key u)).0) (values d) in
    let r =
      resolve_bucket-IsResolved m e nonempty u h.keeps bucket
        (mem-filter (λ x. bucket_key x == bucket_key u) here (beq_refl (bucket_key u))) alike in
    record {
      kept = r.kept;
      member = mem-flat_map resolve_bucket (mem-group_by bucket_key here) r.member;
      keeps = r.keeps;
    }

module _ (logs traces : List TokenMovement) (stable : HaveStableIds (logs ++ traces))
    (distinct : AreDistinct (ids logs)) where
  -- Where no two log movements have one id, and movements with one id have one transaction, parties
  -- and amount, each nonempty evidence id of a log or a trace movement stands with a movement of the
  -- union that has the same transaction, parties and amount.
  pub unify_movements-IsResolved :
      (m : TokenMovement) (e : String)
      → Memᴰ m (logs ++ traces)
      → contains m.evidence_ids e ≡ true
      → e ≢ ""
      → IsResolved m e (unify_movements logs traces)
  unfolding unify_movements unify_unsorted
  unify_movements-IsResolved m e mem has nonempty =
      let by_log = index_logs [] logs in
      let inside_left = All-imp (λ a q. mem-append_left traces q) logs (All-self logs) in
      let inside_right = All-imp (λ a q. mem-append_right logs q) traces (All-self traces) in
      let index = index_logs-IsIndex (logs ++ traces) [] logs inside_left (λ k u at. cc) in
      let kept : IsKept m e (add_traces by_log traces) = elim (mem-append_split logs mem) [
        | inl log ↦ add_traces-IsKept m e by_log traces (record {
          found = m;
          at = index_logs_own m [] logs log distinct;
          keeps = record { key = refl; evidence = has };
        })
        | inr trace ↦
            add_traces_own (logs ++ traces) stable e nonempty m by_log traces trace inside_right
              index has
      ] in
      let r = kept-IsResolved m e nonempty (add_traces by_log traces) kept in
      record { kept = r.kept; member = mem-sort le_movement r.member; keeps = r.keeps }
