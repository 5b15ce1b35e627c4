-- ===== src/Reconciliation/Unify/Evidence.antt =====
-- The union of the log and the trace movements keeps all evidence, and invents nothing.
use chainlink_economic_ledge.Prelude.{
  String, some, List, [], ◌∷◌, ◌++◌, true, not, ◌&&◌, ◌||◌, ◌≡◌, ◌≢◌, refl, ◌∙◌, inl, inr, ◌==◌,
  string_eq, int_eq, pair_eq, contains, Bool-cases, Option-cases, arith,
}
use chainlink_economic_ledge.Prelude.Dict.{Dict, lookup, lookup-insert}
use chainlink_economic_ledge.Prelude.Members.{contains-append_one}
use chainlink_economic_ledge.Reconciliation.Movement.{TokenMovement}
use chainlink_economic_ledge.Reconciliation.Unify.{
  bucket_key, merge_evidence, absorb, add_trace, add_traces,
}

contains-merge_evidence :
    (xs ys : List String) (e : String)
    → contains (merge_evidence xs ys) e ≡ (contains xs e || contains ys e && not (e == ""))
unfolding merge_evidence
contains-merge_evidence xs [] e = ground arith
contains-merge_evidence xs (y ∷ ys) e = elim (Bool-cases (not (y == "") && not (contains xs y))) [
  | inl keep ↦
      rw (keep, contains-merge_evidence (xs ++ y ∷ []) ys e, contains-append_one xs y e)
        (ground (arith, string_eq.beq_iff y e, string_eq.beq_iff y "", string_eq.beq_iff e ""))
  | inr skip ↦
      rw (skip, contains-merge_evidence xs ys e)
        (ground (arith, string_eq.beq_iff y e, string_eq.beq_iff y "", string_eq.beq_iff e ""))
]

-- A record of the same transaction, parties and amount as the movement that has the evidence.
pub record Keeps (m : TokenMovement) (e : String) (u : TokenMovement) : Type 0 where
  pub key : bucket_key u ≡ bucket_key m
  pub evidence : contains u.evidence_ids e ≡ true

-- The records under an id keep the evidence.
pub record IsKept (m : TokenMovement) (e : String) (d : Dict String TokenMovement) : Type 0 where
  pub found : TokenMovement
  pub at : lookup m.movement_id d ≡ some found
  pub keeps : Keeps m e found

pub absorb-Keeps_left :
    (m : TokenMovement) (e : String) (u t : TokenMovement) → Keeps m e u → Keeps m e (absorb u t)
unfolding absorb
absorb-Keeps_left m e u t h = record {
  key = h.key;
  evidence =
      rw (contains-merge_evidence u.evidence_ids t.evidence_ids e) (ground (arith, h.evidence));
}

pub absorb-Keeps_right :
    (m : TokenMovement) (e : String) (u t : TokenMovement)
    → e ≢ ""
    → bucket_key u ≡ bucket_key t
    → Keeps m e t
    → Keeps m e (absorb u t)
unfolding absorb
absorb-Keeps_right m e u t nonempty same h = record {
  key = same ∙ h.key;
  evidence =
      rw (contains-merge_evidence u.evidence_ids t.evidence_ids e)
        (ground (arith, h.evidence, string_eq.beq_iff e ""));
}

pub add_trace-IsKept :
    (m : TokenMovement) (e : String) (d : Dict String TokenMovement) (t : TokenMovement)
    → IsKept m e d
    → IsKept m e (add_trace d t)
unfolding add_trace
add_trace-IsKept m e d t h = elim (Option-cases (lookup t.movement_id d)) [
  | inl new ↦
      rw (add_trace, new)
        (record {
          found = h.found;
          at = ground (
            arith,
            lookup-insert t.movement_id m.movement_id t d,
            h.at,
            string_eq.beq_iff t.movement_id m.movement_id,
          );
          keeps = h.keeps;
        })
  | inr (u, there) ↦ elim (Bool-cases (t.movement_id == m.movement_id)) [
    | inl same ↦
        let it : h.found ≡ u =
          ground (arith, h.at, there, (string_eq.beq_iff t.movement_id m.movement_id).0 same) in
        rw (add_trace, there)
          (record {
            found = absorb u t;
            at = rw (lookup-insert t.movement_id m.movement_id (absorb u t) d, same) refl;
            keeps = absorb-Keeps_left m e u t (rw it at h.keeps);
          })
    | inr other ↦
        rw (add_trace, there)
          (record {
            found = h.found;
            at = rw (lookup-insert t.movement_id m.movement_id (absorb u t) d, other) h.at;
            keeps = h.keeps;
          })
  ]
]

pub add_traces-IsKept :
    (m : TokenMovement) (e : String) (d : Dict String TokenMovement) (ts : List TokenMovement)
    → IsKept m e d
    → IsKept m e (add_traces d ts)
unfolding add_traces
add_traces-IsKept m e d [] h = h
add_traces-IsKept m e d (t ∷ ts) h =
    add_traces-IsKept m e (add_trace d t) ts (add_trace-IsKept m e d t h)
