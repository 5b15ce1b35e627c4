-- ===== src/Decoder/TraceTree/Addresses.antt =====
-- An assigned address is the way to its frame.
use mathlib.Core.List.{append_assoc, append-nil, map-append}
use chainlink_economic_ledge.Prelude.{
  ℕ, zero, suc, ◌+◌, Option, none, some, List, [], ◌∷◌, ◌++◌, map, ◌≡◌, refl, sym, ap, ◌∙◌, All,
  All-append, All-imp, arith,
}
use chainlink_economic_ledge.Decoder.TraceTree.{
  Frame, RawTrace, Calls, frame, address_of, flatten_call_tree, flatten_calls,
  assign_trace_addresses, assign_calls,
}

unfoldable mutual
  -- The frame that one comes to by the numbers of calls along a path.
  pub frame_at : RawTrace → List ℕ → Option Frame
  frame_at (RawTrace.node f address calls) [] = some f
  frame_at (RawTrace.node f address calls) (i ∷ path) = frame_in calls i path

  pub frame_in : Calls → ℕ → List ℕ → Option Frame
  frame_in Calls.no_calls i path = none
  frame_in (Calls.call c rest) zero path = frame_at c path
  frame_in (Calls.call c rest) (suc i) path = frame_in rest i path

-- The address of a frame of the tree, below the address of the root.
record IsBelow (t : RawTrace) (prefix : List ℕ) (n : RawTrace) : Type 0 where
  path : List ℕ
  address : address_of n ≡ prefix ++ path
  leads : frame_at t path ≡ some (frame n)

-- The same among calls that are numbered from a first number on.
record IsAmong (calls : Calls) (prefix : List ℕ) (first : ℕ) (n : RawTrace) : Type 0 where
  index : ℕ
  path : List ℕ
  address : address_of n ≡ prefix ++ (first + index) ∷ path
  leads : frame_in calls index path ≡ some (frame n)

mutual
  unfolding flatten_call_tree flatten_calls assign_trace_addresses assign_calls frame_at frame_in

  assigned-IsBelow :
      (t : RawTrace) (prefix : List ℕ)
      → All (IsBelow t prefix) (flatten_call_tree (assign_trace_addresses t prefix))
  assigned-IsBelow (RawTrace.node f address calls) prefix = (
    record { path = []; address = sym (append-nil prefix); leads = refl },
    All-imp
        (λ n h. record {
          path = h.index ∷ h.path;
          address = h.address ∙ ap (λ k. prefix ++ k ∷ h.path) (omega arith);
          leads = h.leads;
        })
        (flatten_calls (assign_calls calls prefix 0)) (assigned-IsAmong calls prefix 0),
  )

  assigned-IsAmong :
      (calls : Calls) (prefix : List ℕ) (first : ℕ)
      → All (IsAmong calls prefix first) (flatten_calls (assign_calls calls prefix first))
  assigned-IsAmong Calls.no_calls prefix first = tt
  assigned-IsAmong (Calls.call c rest) prefix first =
      All-append (IsAmong (Calls.call c rest) prefix first)
        (flatten_call_tree (assign_trace_addresses c (prefix ++ first ∷ [])))
        (flatten_calls (assign_calls rest prefix (suc first)))
        (All-imp
          (λ n h. record {
            index = 0;
            path = h.path;
            address =
                h.address
                ∙ append_assoc prefix (first ∷ []) h.path
                ∙ ap (λ k. prefix ++ k ∷ h.path) (omega arith);
            leads = h.leads;
          })
          (flatten_call_tree (assign_trace_addresses c (prefix ++ first ∷ [])))
          (assigned-IsBelow c (prefix ++ first ∷ [])))
        (All-imp
          (λ n h. record {
            index = suc h.index;
            path = h.path;
            address = h.address ∙ ap (λ k. prefix ++ k ∷ h.path) (omega arith);
            leads = h.leads;
          })
          (flatten_calls (assign_calls rest prefix (suc first)))
          (assigned-IsAmong rest prefix (suc first)))

mutual
  unfolding flatten_call_tree flatten_calls assign_trace_addresses assign_calls

  frames_same :
      (t : RawTrace) (prefix : List ℕ)
      → map frame (flatten_call_tree (assign_trace_addresses t prefix))
        ≡ map frame (flatten_call_tree t)
  frames_same (RawTrace.node f address calls) prefix = ap (λ fs. f ∷ fs) (calls_same calls prefix 0)

  calls_same :
      (calls : Calls) (prefix : List ℕ) (i : ℕ)
      → map frame (flatten_calls (assign_calls calls prefix i)) ≡ map frame (flatten_calls calls)
  calls_same Calls.no_calls prefix i = refl
  calls_same (Calls.call c rest) prefix i =
      rw
        (
          map-append frame (flatten_call_tree (assign_trace_addresses c (prefix ++ i ∷ [])))
              (flatten_calls (assign_calls rest prefix (suc i))),
          map-append frame (flatten_call_tree c) (flatten_calls rest),
          frames_same c (prefix ++ i ∷ []),
          calls_same rest prefix (suc i),
        )
        refl

-- Assigning addresses from the root keeps the frames of a tree and their order, and the address of
-- each is the path of call numbers that leads to it from the root.
pub assign_trace_addresses-frame_at :
    (t : RawTrace)
    → (map frame (flatten_call_tree (assign_trace_addresses t []))
        ≡ map frame (flatten_call_tree t))
      × All
          (λ n. frame_at t (address_of n) ≡ some (frame n))
          (flatten_call_tree (assign_trace_addresses t []))
assign_trace_addresses-frame_at t = (
  frames_same t [],
  All-imp (λ n h. ap (λ p. frame_at t p) h.address ∙ h.leads)
      (flatten_call_tree (assign_trace_addresses t [])) (assigned-IsBelow t []),
)
