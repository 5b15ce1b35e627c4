-- ===== src/Ingestion/Checkpoint/Restart.antt =====
-- Nothing is lost on a restart: what a process finds in the file is the state in memory of the one
-- before it, after any operations.
use mathlib.Core.List.{append_assoc, append-nil}
use chainlink_economic_ledge.Prelude.{
  ℕ, String, none, some, List, [], ◌∷◌, ◌++◌, false, ◌≡◌, refl, sym, ap, ◌∙◌, inl, inr, ◌==◌,
  nat_eq, string_eq, pair_eq, pair_beq_iff, Bool-cases, Option-cases, ltb, contains, All, arith,
}
use chainlink_economic_ledge.Prelude.Dict.{
  Dict, lookup, insert, values, IsDistinct, insert-IsDistinct,
}
use chainlink_economic_ledge.Ingestion.Checkpoint.{
  CheckpointState, Key, key_of, Checkpoint, load_entries, load, save, advance, mark_replay,
  clear_replay,
}

-- An operation of the ingestion loop, or the start of a new process on the same file.
pub data Step : Checkpoint → Checkpoint → Type 0 where
  advances : (c : Checkpoint) (n : ℕ) (s : String) (b : ℕ) (h : String) → Step c (advance c n s b h)
  marks : (c : Checkpoint) (n : ℕ) (s : String) (from to : ℕ) → Step c (mark_replay c n s from to)
  clears : (c : Checkpoint) (n : ℕ) (s : String) (from to : ℕ) → Step c (clear_replay c n s from to)
  restarts : (c : Checkpoint) → Step c (load c.stored)

-- What a process that loads some file can come to.
pub data Reachable (stored : List CheckpointState) : Checkpoint → Type 0 where
  starts : Reachable stored (load stored)
  steps : (c d : Checkpoint) → Reachable stored c → Step c d → Reachable stored d

-- Each state stands under its own key.
abbrev IsKeyed : Dict Key CheckpointState → Type 0
IsKeyed = All (λ p. p.0 ≡ key_of p.1)

insert-IsKeyed :
    (k : Key) (s : CheckpointState) (d : Dict Key CheckpointState)
    → k ≡ key_of s
    → IsKeyed d
    → IsKeyed (insert k s d)
insert-IsKeyed k s [] own h = (own, tt)
insert-IsKeyed k s ((j, t) ∷ d) own h = elim (Bool-cases (j == k)) [
  | inl same ↦ rw same (ground (arith, (pair_beq_iff j k).0 same, own), h.1)
  | inr other ↦ rw other (h.0, insert-IsKeyed k s d own h.1)
]

lookup-IsKeyed :
    (k : Key) (s : CheckpointState) (d : Dict Key CheckpointState)
    → IsKeyed d
    → lookup k d ≡ some s
    → k ≡ key_of s
lookup-IsKeyed k s [] h e = cc
lookup-IsKeyed k s ((j, t) ∷ d) h e = elim (Bool-cases (j == k)) [
  | inl same ↦ ground (arith, (pair_beq_iff j k).0 same, h.0)
  | inr other ↦ lookup-IsKeyed k s d h.1 (rw other at e)
]

record IsProper (d : Dict Key CheckpointState) : Type 0 where
  keyed : IsKeyed d
  distinct : IsDistinct d

insert-IsProper :
    (k : Key) (s : CheckpointState) (d : Dict Key CheckpointState)
    → k ≡ key_of s
    → IsProper d
    → IsProper (insert k s d)
insert-IsProper k s d own h = record {
  keyed = insert-IsKeyed k s d own h.keyed;
  distinct = insert-IsDistinct k s d h.distinct;
}

load_entries-IsProper :
    (d : Dict Key CheckpointState) (es : List CheckpointState)
    → IsProper d
    → IsProper (load_entries d es)
unfolding load_entries
load_entries-IsProper d [] h = h
load_entries-IsProper d (e ∷ es) h =
    load_entries-IsProper (insert (key_of e) e d) es (insert-IsProper (key_of e) e d refl h)

insert-absent :
    (k : Key) (s : CheckpointState) (d : Dict Key CheckpointState)
    → lookup k d ≡ none
    → insert k s d ≡ d ++ (k, s) ∷ []
insert-absent k s [] h = refl
insert-absent k s ((j, t) ∷ d) h = elim (Bool-cases (j == k)) [
  | inl same ↦ ground arith
  | inr other ↦ rw other (ap (λ z. (j, t) ∷ z) (insert-absent k s d (rw other at h)))
]

lookup-append_one :
    (k j : Key) (s : CheckpointState) (d : Dict Key CheckpointState)
    → lookup k d ≡ none
    → (j == k) ≡ false
    → lookup k (d ++ (j, s) ∷ []) ≡ none
lookup-append_one k j s [] h ne = rw ne refl
lookup-append_one k j s ((i, t) ∷ d) h ne = ground (arith, lookup-append_one k j s d)

-- No key of the second stands in the first.
abbrev IsApart : Dict Key CheckpointState → Dict Key CheckpointState → Type 0
IsApart d = All (λ p. lookup p.0 d ≡ none)

IsApart-append_one :
    (j : Key) (s : CheckpointState) (d e : Dict Key CheckpointState)
    → IsApart d e
    → lookup j e ≡ none
    → IsApart (d ++ (j, s) ∷ []) e
IsApart-append_one j s d [] h free = tt
IsApart-append_one j s d ((k, t) ∷ e) h free = (
  lookup-append_one k j s d h.0 (ground (arith, pair_beq_iff j k, pair_beq_iff k j)),
  IsApart-append_one j s d e h.1 (ground (arith, pair_beq_iff j k, pair_beq_iff k j)),
)

-- Entries with new keys are taken over one by one.
load_entries-values :
    (d e : Dict Key CheckpointState) → IsProper e → IsApart d e → load_entries d (values e) ≡ d ++ e
unfolding load_entries
load_entries-values d [] h apart = sym (append-nil d)
load_entries-values d ((k, s) ∷ e) h apart =
    rw (load_entries, ← h.keyed.0, insert-absent k s d apart.0)
      (load_entries-values (d ++ (k, s) ∷ []) e
          (record { keyed = h.keyed.1; distinct = h.distinct.1 })
          (IsApart-append_one k s d e apart.1 h.distinct.0)
        ∙ append_assoc d ((k, s) ∷ []) e)

IsApart-nil : (e : Dict Key CheckpointState) → IsApart [] e
IsApart-nil [] = tt
IsApart-nil ((k, s) ∷ e) = (refl, IsApart-nil e)

-- The file holds the state in memory.
record IsDurable (c : Checkpoint) : Type 0 where
  proper : IsProper c.state
  same : (load c.stored).state ≡ c.state

save-IsDurable : (d : Dict Key CheckpointState) → IsProper d → IsDurable (save d)
unfolding save load
save-IsDurable d h = record { proper = h; same = load_entries-values [] d h (IsApart-nil d) }

load-IsDurable : (es : List CheckpointState) → IsDurable (load es)
unfolding load
load-IsDurable es = record {
  proper = load_entries-IsProper [] es (record { keyed = tt; distinct = tt });
  same = refl;
}

Step-IsDurable : (c d : Checkpoint) → Step c d → IsDurable c → IsDurable d
unfolding advance mark_replay clear_replay
Step-IsDurable _ _ (Step.restarts c) h = load-IsDurable c.stored
Step-IsDurable _ _ (Step.advances c n s b x) h = elim (Option-cases (lookup (n, s) c.state)) [
  | inl missing ↦
      rw (advance, missing) (save-IsDurable _ (insert-IsProper _ _ c.state refl h.proper))
  | inr (t, found) ↦ elim (Bool-cases (ltb t.last_block b)) [
    | inl later ↦
        rw (advance, found)
          (rw later (
            save-IsDurable _ (
              insert-IsProper _ _ c.state (lookup-IsKeyed (n, s) t c.state h.proper.keyed found)
                h.proper)))
    | inr stale ↦ rw (advance, found) (rw stale (save-IsDurable _ h.proper))
  ]
]
Step-IsDurable _ _ (Step.clears c n s from to) h = elim (Option-cases (lookup (n, s) c.state)) [
  | inl missing ↦ rw (clear_replay, missing) h
  | inr (t, found) ↦
      rw (clear_replay, found)
        (save-IsDurable _ (
          insert-IsProper _ _ c.state (lookup-IsKeyed (n, s) t c.state h.proper.keyed found)
            h.proper))
]
Step-IsDurable _ _ (Step.marks c n s from to) h = elim (Option-cases (lookup (n, s) c.state)) [
  | inl missing ↦
      rw (mark_replay, missing) (save-IsDurable _ (insert-IsProper _ _ c.state refl h.proper))
  | inr (t, found) ↦ elim (Bool-cases (contains t.pending_replays (from, to))) [
    | inl known ↦
        rw (mark_replay, found)
          (rw known (
            save-IsDurable _ (
              insert-IsProper _ _ c.state (lookup-IsKeyed (n, s) t c.state h.proper.keyed found)
                h.proper)))
    | inr new ↦
        rw (mark_replay, found)
          (rw new (
            save-IsDurable _ (
              insert-IsProper _ _ c.state (lookup-IsKeyed (n, s) t c.state h.proper.keyed found)
                h.proper)))
  ]
]

Reachable-IsDurable : (es : List CheckpointState) (c : Checkpoint) → Reachable es c → IsDurable c
Reachable-IsDurable es _ Reachable.starts = load-IsDurable es
Reachable-IsDurable es _ (Reachable.steps c d r s) =
    Step-IsDurable c d s (Reachable-IsDurable es c r)

-- Whatever the file held at first and whatever operations and restarts followed, a new process on
-- the file finds the state that stands in memory.
pub load-stored-Reachable :
    (es : List CheckpointState) (c : Checkpoint) → Reachable es c → (load c.stored).state ≡ c.state
load-stored-Reachable es c r = (Reachable-IsDurable es c r).same
