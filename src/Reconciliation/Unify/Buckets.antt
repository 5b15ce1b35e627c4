-- ===== src/Reconciliation/Unify/Buckets.antt =====
-- A bucket of records of one transaction, parties and amount keeps their evidence when it is resolved.
use mathlib.Core.List.{Memᴰ}
use chainlink_economic_ledge.Prelude.{
  String, List, [], ◌∷◌, not, ◌&&◌, ◌≡◌, ◌≢◌, refl, ap, inl, inr, string_eq, int_eq, pair_eq,
  Bool-cases, arith, All, All-Memᴰ, All-imp, All-filter_mem, filter, length, eqb,
}
use chainlink_economic_ledge.Prelude.Members.{mem-filter}
use chainlink_economic_ledge.Reconciliation.Movement.{TokenMovement}
use chainlink_economic_ledge.Reconciliation.Unify.{
  bucket_key, is_log, is_trace, absorb, pair_up, resolve_bucket,
}
use chainlink_economic_ledge.Reconciliation.Unify.Evidence.{
  Keeps, absorb-Keeps_left, absorb-Keeps_right,
}

pair_up_log :
    (u : TokenMovement) (ls ts : List TokenMovement)
    → Memᴰ u ls
    → length ls ≡ length ts
    → (t : TokenMovement) × Memᴰ (absorb u t) (pair_up ls ts)
unfolding pair_up
pair_up_log u [] ts m h = elim m [ ]
pair_up_log u (l ∷ ls) [] (Memᴰ.head e) h = absurd (ground arith)
pair_up_log u (l ∷ ls) [] (Memᴰ.tail m) h = absurd (ground arith)
pair_up_log u (l ∷ ls) (t ∷ ts) (Memᴰ.head e) h = (t, Memᴰ.head (ap (λ x. absorb x t) e))
pair_up_log u (l ∷ ls) (t ∷ ts) (Memᴰ.tail m) h =
    let (s, there) = pair_up_log u ls ts m (ground arith) in (s, Memᴰ.tail there)

pair_up_trace :
    (u : TokenMovement) (ls ts : List TokenMovement)
    → Memᴰ u ts
    → length ls ≡ length ts
    → (l : TokenMovement) × Memᴰ l ls × Memᴰ (absorb l u) (pair_up ls ts)
unfolding pair_up
pair_up_trace u [] [] m h = elim m [ ]
pair_up_trace u (l ∷ ls) [] m h = elim m [ ]
pair_up_trace u [] (t ∷ ts) (Memᴰ.head e) h = absurd (ground arith)
pair_up_trace u [] (t ∷ ts) (Memᴰ.tail m) h = absurd (ground arith)
pair_up_trace u (l ∷ ls) (t ∷ ts) (Memᴰ.head e) h =
    (l, Memᴰ.head refl, Memᴰ.head (ap (λ x. absorb l x) e))
pair_up_trace u (l ∷ ls) (t ∷ ts) (Memᴰ.tail m) h =
    let (k, here, there) = pair_up_trace u ls ts m (ground arith) in
    (k, Memᴰ.tail here, Memᴰ.tail there)

-- What a resolved bucket has of the movement's evidence.
pub record IsResolved (m : TokenMovement) (e : String) (entries : List TokenMovement) : Type 0 where
  pub kept : TokenMovement
  pub member : Memᴰ kept entries
  pub keeps : Keeps m e kept

module _ (m : TokenMovement) (e : String) (nonempty : e ≢ "") (u : TokenMovement) (h : Keeps m e u)
    (entries : List TokenMovement) (here : Memᴰ u entries)
    (alike : All (λ x. bucket_key x ≡ bucket_key u) entries) where
  paired :
      length (filter is_log entries) ≡ length (filter is_trace entries)
      → IsResolved m e (pair_up (filter is_log entries) (filter is_trace entries))
  paired same = elim (Bool-cases (is_log u)) [
    | inl log ↦
        let (t, there) = pair_up_log u _ _ (mem-filter is_log here log) same in
        record { kept = absorb u t; member = there; keeps = absorb-Keeps_left m e u t h }
    | inr other ↦
        let (l, from, there) = pair_up_trace u _ _ (mem-filter is_trace here (ground arith)) same in
        let like =
          All-Memᴰ (λ x. bucket_key x ≡ bucket_key u)
            (All-imp (λ x q. q.0) (filter is_log entries)
              (All-filter_mem (λ x. bucket_key x ≡ bucket_key u) is_log entries alike))
            from in
        record {
          kept = absorb l u;
          member = there;
          keeps = absorb-Keeps_right m e l u nonempty like h;
        }
  ]

  pub resolve_bucket-IsResolved : IsResolved m e (resolve_bucket entries)
  unfolding resolve_bucket
  resolve_bucket-IsResolved =
      let logs = filter is_log entries in
      let traces = filter is_trace entries in
      elim (Bool-cases (
        (not (eqb (length logs) 0) && not (eqb (length traces) 0))
        && eqb (length logs) (length traces))) [
          | inl even ↦ rw (resolve_bucket, even) (paired (ground arith))
          | inr odd ↦ rw (resolve_bucket, odd) (record { kept = u; member = here; keeps = h })
        ]
