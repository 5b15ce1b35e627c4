-- ===== src/Decoder/TraceDecoder/Flags.antt =====
-- Each decoded call is a frame of the tree, and its flags tell what failed on the way to it.
use mathlib.Core.List.{append_assoc, append-nil}
use chainlink_economic_ledge.Prelude.{
  ℕ, zero, suc, ◌+◌, String, Option, none, some, List, [], ◌∷◌, ◌++◌, Bool, true, false, ◌&&◌, ◌≡◌,
  refl, sym, ap, ◌∙◌, All, All-append, All-imp, Option-cases, inl, inr, arith,
}
use chainlink_economic_ledge.Decoder.Types.{DecodedCall}
use chainlink_economic_ledge.Decoder.Results.{AbiDecode}
use chainlink_economic_ledge.Decoder.AbiRegistry.{AbiRegistry}
use chainlink_economic_ledge.Decoder.TraceTree.{
  Frame, RawTrace, Calls, assign_trace_addresses, assign_calls,
}
use chainlink_economic_ledge.Decoder.TraceTree.Addresses.{frame_at, frame_in}
use chainlink_economic_ledge.Decoder.TraceDecoder.{
  Named, succeeds, call_before, calls_before, name_of, decoded_node, decode_node, walk, walk_calls,
}

unfoldable mutual
  -- The frames strictly above the one at the end of a path have succeeded.
  pub above_succeed : RawTrace → List ℕ → Bool
  above_succeed (RawTrace.node f address calls) [] = true
  above_succeed (RawTrace.node f address calls) (i ∷ path) = succeeds f && above_among calls i path

  pub above_among : Calls → ℕ → List ℕ → Bool
  above_among Calls.no_calls i path = false
  above_among (Calls.call c rest) zero path = above_succeed c path
  above_among (Calls.call c rest) (suc i) path = above_among rest i path

-- All calls of a list that was computed.
abbrev pub AllOf {κ} : (DecodedCall → Type κ) → Option (List DecodedCall) → Type κ
AllOf P none = Unit
AllOf P (some calls) = All P calls

module _ {κ} (P : DecodedCall → Type κ) where
  AllOf-call_before :
      (c : Option DecodedCall) (later : Option (List DecodedCall))
      → ((a : DecodedCall) → c ≡ some a → P a)
      → AllOf P later
      → AllOf P (call_before c later)
  AllOf-call_before none later h below = tt
  AllOf-call_before (some a) none h below = tt
  AllOf-call_before (some a) (some rest) h below = (h a refl, below)

  AllOf-calls_before :
      (cs later : Option (List DecodedCall))
      → AllOf P cs
      → AllOf P later
      → AllOf P (calls_before cs later)
  AllOf-calls_before none later h below = tt
  AllOf-calls_before (some cs) none h below = tt
  AllOf-calls_before (some cs) (some rest) h below = All-append P cs rest h below

module _ {κ} {P Q : DecodedCall → Type κ} where
  AllOf-imp :
      ((a : DecodedCall) → P a → Q a) → (cs : Option (List DecodedCall)) → AllOf P cs → AllOf Q cs
  AllOf-imp imp none h = tt
  AllOf-imp imp (some cs) h = All-imp imp cs h

module _ (sha256 keccak : String → String) (abi_decode : AbiDecode) (registry : AbiRegistry) where
  -- The call was built of a frame of the tree and a name, at the address that leads to the frame below
  -- a prefix, and with the flag that the tree and the frames of the tree above it give.
  pub record IsNodeBelow (t : RawTrace) (prefix : List ℕ) (parent : Bool) (c : DecodedCall)
      : Type 0 where
    pub path : List ℕ
    pub found : Frame
    pub named : Named
    pub leads : frame_at t path ≡ some found
    pub names : name_of sha256 keccak abi_decode registry found ≡ some named
    pub decodes :
        c
        ≡ decoded_node sha256 keccak abi_decode registry found
            (prefix ++ path)
            (parent && above_succeed t path)
            named

  record IsNodeAmong (calls : Calls) (prefix : List ℕ) (first : ℕ) (parent : Bool) (c : DecodedCall)
      : Type 0 where
    index : ℕ
    path : List ℕ
    found : Frame
    named : Named
    leads : frame_in calls index path ≡ some found
    names : name_of sha256 keccak abi_decode registry found ≡ some named
    decodes :
        c
        ≡ decoded_node sha256 keccak abi_decode registry found
            (prefix ++ (first + index) ∷ path)
            (parent && above_among calls index path)
            named

and_true : (b : Bool) → (b && true) ≡ b
and_true b = ground arith

above_succeed-node :
    (parent : Bool) (f : Frame) (address : List ℕ) (calls : Calls) (i : ℕ) (path : List ℕ)
    → ((parent && succeeds f) && above_among calls i path)
      ≡ (parent && above_succeed (RawTrace.node f address calls) (i ∷ path))
unfolding above_succeed
above_succeed-node parent f address calls i path = ground arith

module _ (sha256 keccak : String → String) (abi_decode : AbiDecode) (registry : AbiRegistry) where
  abbrev pub node_of : Frame → List ℕ → Bool → Named → DecodedCall
  node_of f address parent named =
      decoded_node sha256 keccak abi_decode registry f address parent named

  pub decode_node-named :
      (f : Frame) (address : List ℕ) (parent : Bool) {c : DecodedCall}
      → decode_node sha256 keccak abi_decode registry f address parent ≡ some c
      → (named : Named) × (c ≡ node_of f address parent named)
        × (name_of sha256 keccak abi_decode registry f ≡ some named)
  unfolding decode_node
  decode_node-named f address parent {c} e =
      elim (Option-cases (name_of sha256 keccak abi_decode registry f)) [
        | inl missing ↦ cc (rw (decode_node, missing) at e)
        | inr (named, found) ↦ (named, cc (rw (decode_node, found) at e), found)
      ]

  mutual
    unfolding walk assign_trace_addresses frame_at above_succeed

    pub walk-IsNodeBelow :
        (t : RawTrace) (prefix : List ℕ) (parent : Bool)
        → AllOf
            (IsNodeBelow sha256 keccak abi_decode registry t prefix parent)
            (walk sha256 keccak abi_decode registry (assign_trace_addresses t prefix) parent)
    walk-IsNodeBelow (RawTrace.node f address calls) prefix parent =
        AllOf-call_before
          (IsNodeBelow sha256 keccak abi_decode registry (RawTrace.node f address calls) prefix
            parent)
          (decode_node sha256 keccak abi_decode registry f prefix parent)
          (walk_calls sha256 keccak abi_decode registry (assign_calls calls prefix 0)
            (parent && succeeds f))
          (λ c e.
            let named = decode_node-named f prefix parent e in
            record {
              path = [];
              found = f;
              named = named.0;
              names = named.2;
              leads = refl;
              decodes =
                  named.1
                  ∙ ap (λ a. node_of f a parent named.0) (sym (append-nil prefix))
                  ∙ ap (λ b. node_of f (prefix ++ []) b named.0) (sym (and_true parent));
            })
          (AllOf-imp
            (λ c h. record {
              path = h.index ∷ h.path;
              found = h.found;
              named = h.named;
              names = h.names;
              leads = h.leads;
              decodes =
                  h.decodes
                  ∙ ap
                      (λ i.
                        node_of h.found (prefix ++ i ∷ h.path)
                          ((parent && succeeds f) && above_among calls h.index h.path) h.named)
                      (omega arith)
                  ∙ ap (λ b. node_of h.found (prefix ++ h.index ∷ h.path) b h.named)
                      (above_succeed-node parent f address calls h.index h.path);
            })
            (walk_calls sha256 keccak abi_decode registry (assign_calls calls prefix 0)
              (parent && succeeds f))
            (walk_calls-IsNodeAmong calls prefix 0 (parent && succeeds f)))

    walk_calls-IsNodeAmong :
        (calls : Calls) (prefix : List ℕ) (first : ℕ) (parent : Bool)
        → AllOf
            (IsNodeAmong sha256 keccak abi_decode registry calls prefix first parent)
            (walk_calls sha256 keccak abi_decode registry (assign_calls calls prefix first) parent)
    walk_calls-IsNodeAmong Calls.no_calls prefix first parent = tt
    walk_calls-IsNodeAmong (Calls.call c rest) prefix first parent =
        AllOf-calls_before
          (IsNodeAmong sha256 keccak abi_decode registry (Calls.call c rest) prefix first parent)
          (walk sha256 keccak abi_decode registry (assign_trace_addresses c (prefix ++ first ∷ []))
            parent)
          (walk_calls sha256 keccak abi_decode registry (assign_calls rest prefix (suc first))
            parent)
          (AllOf-imp
            (λ d h. record {
              index = 0;
              path = h.path;
              found = h.found;
              named = h.named;
              names = h.names;
              leads = h.leads;
              decodes =
                  h.decodes
                  ∙ ap (λ a. node_of h.found a (parent && above_succeed c h.path) h.named)
                      (append_assoc prefix (first ∷ []) h.path)
                  ∙ ap
                      (λ i.
                        node_of h.found (prefix ++ i ∷ h.path) (parent && above_succeed c h.path)
                          h.named)
                      (omega arith);
            })
            (walk sha256 keccak abi_decode registry
              (assign_trace_addresses c (prefix ++ first ∷ [])) parent)
            (walk-IsNodeBelow c (prefix ++ first ∷ []) parent))
          (AllOf-imp
            (λ d h. record {
              index = suc h.index;
              path = h.path;
              found = h.found;
              named = h.named;
              names = h.names;
              leads = h.leads;
              decodes =
                  h.decodes
                  ∙ ap
                      (λ i.
                        node_of h.found (prefix ++ i ∷ h.path)
                          (parent && above_among rest h.index h.path) h.named)
                      (omega arith);
            })
            (walk_calls sha256 keccak abi_decode registry (assign_calls rest prefix (suc first))
              parent)
            (walk_calls-IsNodeAmong rest prefix (suc first) parent))
