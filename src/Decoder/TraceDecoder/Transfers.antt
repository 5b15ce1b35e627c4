-- ===== src/Decoder/TraceDecoder/Transfers.antt =====
-- The token transfers of a trace come from calls that took effect.
use chainlink_economic_ledge.Prelude.{
  String, Option, none, some, List, [], ◌∷◌, map, filter, true, false, ◌≡◌, refl, sym, ap, ◌∙◌, All,
  All-imp, Option-cases, Bool-cases, inl, inr, string_eq, arith,
}
use chainlink_economic_ledge.Prelude.Text.{lower}
use chainlink_economic_ledge.Prelude.Dict.{Dict, lookup}
use chainlink_economic_ledge.Decoder.Types.{DecodedCall, TraceTokenCall, Receipt}
use chainlink_economic_ledge.Decoder.Results.{AbiDecode}
use chainlink_economic_ledge.Decoder.AbiRegistry.{AbiRegistry}
use chainlink_economic_ledge.Decoder.TraceTree.{Frame, RawTrace, assign_trace_addresses}
use chainlink_economic_ledge.Decoder.TraceTree.Addresses.{frame_at}
use chainlink_economic_ledge.Decoder.TraceDecoder.{
  succeeds, contract_of, decoded_node, decode_trace_calls,
}
use chainlink_economic_ledge.Decoder.TraceDecoder.Flags.{above_succeed, IsNodeBelow}
use chainlink_economic_ledge.Decoder.TraceDecoder.Order.{decode_trace_calls-IsNodeBelow}
use chainlink_economic_ledge.Decoder.TraceDecoder.Extraction.{
  is_accepted, token_call_of, token_call_before, extract_calls, extract_erc20_transfer_calls,
}

module _ (target : String) (receipts : Dict String Receipt) where
  -- A transfer that an accepted call was turned into.
  record IsFrom (P : DecodedCall → Type 0) (m : TraceTokenCall) : Type 0 where
    call : DecodedCall
    holds : P call
    accepted : is_accepted target receipts call ≡ true
    turned : token_call_of target call ≡ some m

  abbrev Reports :
      (P : DecodedCall → Type 0) → List DecodedCall → Option (List TraceTokenCall) → Type 0
  Reports P calls none = Unit
  Reports P calls (some ms) =
      All (IsFrom P) ms
      × (map (λ m. m.trace_address) ms
          ≡ map (λ c. c.trace_address) (filter (is_accepted target receipts) calls))

  token_call_of-address :
      (c : DecodedCall) (m : TraceTokenCall)
      → token_call_of target c ≡ some m
      → (m.trace_address ≡ c.trace_address) × (m.tx_hash ≡ c.tx_hash) × (m.token_address ≡ target)
  unfolding token_call_of
  token_call_of-address c m e = ground arith

  token_call_before-Reports :
      (P : DecodedCall → Type 0) (c : DecodedCall) (calls : List DecodedCall)
      (o : Option TraceTokenCall) (later : Option (List TraceTokenCall))
      → P c
      → is_accepted target receipts c ≡ true
      → token_call_of target c ≡ o
      → Reports P calls later
      → Reports P (c ∷ calls) (token_call_before o later)
  token_call_before-Reports P c calls none later p accepted turned below = tt
  token_call_before-Reports P c calls (some m) none p accepted turned below = tt
  token_call_before-Reports P c calls (some m) (some ms) p accepted turned below = rw accepted (
    (record { call = c; holds = p; accepted = accepted; turned = turned }, below.0),
    rw ((token_call_of-address c m turned).0, below.1) refl,
  )

  skipped-Reports :
      (P : DecodedCall → Type 0) (c : DecodedCall) (calls : List DecodedCall)
      (later : Option (List TraceTokenCall))
      → is_accepted target receipts c ≡ false
      → Reports P calls later
      → Reports P (c ∷ calls) later
  skipped-Reports P c calls none refused below = tt
  skipped-Reports P c calls (some ms) refused below = (below.0, rw refused below.1)

  extract_calls-Reports :
      (P : DecodedCall → Type 0) (calls : List DecodedCall)
      → All P calls
      → Reports P calls (extract_calls target receipts calls)
  unfolding extract_calls
  extract_calls-Reports P [] all = (tt, refl)
  extract_calls-Reports P (c ∷ calls) all = elim (Bool-cases (is_accepted target receipts c)) [
    | inl accepted ↦
        let step =
          token_call_before-Reports P c calls (token_call_of target c)
            (extract_calls target receipts calls) all.0 accepted refl
            (extract_calls-Reports P calls all.1) in
        rw (extract_calls, accepted) step
    | inr refused ↦
        rw (extract_calls, refused)
          (skipped-Reports P c calls (extract_calls target receipts calls) refused
            (extract_calls-Reports P calls all.1))
  ]

-- What acceptance requires of a call.
record Accepted (target : String) (receipts : Dict String Receipt) (c : DecodedCall) : Type 0 where
  contract : String
  receipt : Receipt
  at_contract : c.contract_address ≡ some contract
  is_token : lower contract ≡ target
  success : c.success ≡ true
  parent_success : c.parent_success ≡ true
  receipt_found : lookup (lower c.tx_hash) receipts ≡ some receipt
  status : receipt.status ≡ 1

is_accepted-Accepted :
    (target : String) (receipts : Dict String Receipt) (c : DecodedCall)
    → is_accepted target receipts c ≡ true
    → Accepted target receipts c
is_accepted-Accepted target receipts c h = elim (Option-cases c.contract_address) [
  | inl missing ↦ absurd (ground arith)
  | inr (contract, at_contract) ↦ elim (Option-cases (lookup (lower c.tx_hash) receipts)) [
    | inl missing ↦ absurd (ground arith)
    | inr (receipt, found) ↦ record {
      contract = contract;
      receipt = receipt;
      at_contract = at_contract;
      is_token = ground (arith, string_eq.beq_iff (lower contract) target);
      success = ground arith;
      parent_success = ground arith;
      receipt_found = found;
      status = ground arith;
    }
  ]
]

module _ (sha256 keccak : String → String) (abi_decode : AbiDecode) (registry : AbiRegistry) where
  -- The transfer is a frame of the tree that succeeded, as did all frames above it and the
  -- transaction, and the frame called the token.
  pub record TookEffect (t : RawTrace) (token : String) (receipts : Dict String Receipt)
      (m : TraceTokenCall) : Type 0 where
    pub found : Frame
    pub contract : String
    pub receipt : Receipt
    pub leads : frame_at t m.trace_address ≡ some found
    pub runs : succeeds found ≡ true
    pub above : above_succeed t m.trace_address ≡ true
    pub called : contract_of found ≡ some contract
    pub is_token : lower contract ≡ lower token
    pub token_address : m.token_address ≡ lower token
    pub receipt_found : lookup (lower m.tx_hash) receipts ≡ some receipt
    pub status : receipt.status ≡ 1

  from-TookEffect :
      (t : RawTrace) (token : String) (receipts : Dict String Receipt) (m : TraceTokenCall)
      → IsFrom (lower token) receipts (IsNodeBelow sha256 keccak abi_decode registry t [] true) m
      → TookEffect t token receipts m
  unfolding decoded_node
  from-TookEffect t token receipts m h =
      let c = h.call in
      let a = is_accepted-Accepted (lower token) receipts c h.accepted in
      let same = token_call_of-address (lower token) receipts c m h.turned in
      let path : m.trace_address ≡ h.holds.path =
        same.0 ∙ ap (λ d. d.trace_address) h.holds.decodes in
      record {
        found = h.holds.found;
        contract = a.contract;
        receipt = a.receipt;
        leads = ap (λ p. frame_at t p) path ∙ h.holds.leads;
        runs = sym (ap (λ d. d.success) h.holds.decodes) ∙ a.success;
        above =
            ap (λ p. above_succeed t p) path
            ∙ sym (ap (λ d. d.parent_success) h.holds.decodes)
            ∙ a.parent_success;
        called = sym (ap (λ d. d.contract_address) h.holds.decodes) ∙ a.at_contract;
        is_token = a.is_token;
        token_address = same.2;
        receipt_found = ap (λ x. lookup (lower x) receipts) same.1 ∙ a.receipt_found;
        status = a.status;
      }

  pub extract_erc20_transfer_calls-TookEffect :
      (t : RawTrace) (token : String) (receipts : Dict String Receipt) {calls : List DecodedCall}
      {ms : List TraceTokenCall}
      → decode_trace_calls sha256 keccak abi_decode registry (assign_trace_addresses t [])
        ≡ some calls
      → extract_erc20_transfer_calls calls token receipts ≡ some ms
      → All (TookEffect t token receipts) ms
        × (map (λ m. m.trace_address) ms
            ≡ map (λ c. c.trace_address) (filter (is_accepted (lower token) receipts) calls))
  unfolding extract_erc20_transfer_calls
  extract_erc20_transfer_calls-TookEffect t token receipts {calls} {ms} decoded extracted =
      let below = IsNodeBelow sha256 keccak abi_decode registry t [] true in
      let all = decode_trace_calls-IsNodeBelow sha256 keccak abi_decode registry t decoded in
      let found : Reports (lower token) receipts below calls (some ms) =
        rw extracted at (extract_calls-Reports (lower token) receipts below calls all.1) in
      (All-imp (from-TookEffect t token receipts) ms found.0, found.1)
