-- ===== src/Protocols/Staking/Semantics/Provenance.antt =====
-- Each action that an event becomes stands for that event.
use chainlink_economic_ledge.Prelude.{
  ◌≤◌, String, some, List, [], ◌≡◌, refl, inl, inr, ℤ, length, All, ◌==◌, string_eq, Bool-cases,
  Option-cases, arith,
}
use chainlink_economic_ledge.Prelude.Dict.{lookup}
use chainlink_economic_ledge.Decoder.Types.{DecodedEvent}
use chainlink_economic_ledge.Decoder.ContractRegistry.{ContractRegistry, role}
use chainlink_economic_ledge.Protocols.Staking.Action.{ActionKind, EconomicAction}
use chainlink_economic_ledge.Protocols.Staking.Semantics.{
  event_name_to_kind, extract_amount_link, extract_wallet, role_or, base_action, v01_action,
  actions_of_kind, classify_event_as_action,
}

-- The action has the kind that the event's name stands for, and the amount, the wallet, the place
-- on the chain and the identifiers of the event.
pub record IsActionOf (decoded : DecodedEvent) (a : EconomicAction) : Type 0 where
  pub kind : lookup decoded.event_name event_name_to_kind ≡ some a.kind
  pub amount : extract_amount_link decoded ≡ some a.amount_link
  pub wallet : a.wallet ≡ extract_wallet decoded
  pub tx : a.tx_hash ≡ decoded.tx_hash
  pub block : a.block_number ≡ decoded.block_number
  pub log : a.log_index ≡ decoded.log_index
  pub contract : a.contract_address ≡ decoded.contract_address
  pub raw : a.raw_log_id ≡ decoded.raw_log_id
  pub event : a.decoded_event_id ≡ decoded.decoded_event_id

module _ (sha256 : String → String) (decoded : DecodedEvent) where
  abbrev IsGood : List EconomicAction → Type 0
  IsGood actions = All (IsActionOf decoded) actions × (length actions ≤ 2)

  base-IsActionOf :
      (r : String) (k : ActionKind) (n : ℤ)
      → lookup decoded.event_name event_name_to_kind ≡ some k
      → extract_amount_link decoded ≡ some n
      → IsActionOf decoded (base_action sha256 decoded r k n)
  unfolding base_action
  base-IsActionOf r k n kind amount = record {
    kind = kind;
    amount = amount;
    wallet = refl;
    tx = refl;
    block = refl;
    log = refl;
    contract = refl;
    raw = refl;
    event = refl;
  }

  actions-IsGood :
      (k : ActionKind) (a : EconomicAction)
      → IsActionOf decoded a
      → IsGood (actions_of_kind sha256 decoded k a)
  unfolding v01_action
  actions-IsGood ActionKind.migrated_from_v01 a h = (
    (
      record {
        kind = h.kind;
        amount = h.amount;
        wallet = h.wallet;
        tx = h.tx;
        block = h.block;
        log = h.log;
        contract = h.contract;
        raw = h.raw;
        event = h.event;
      },
      (h, tt),
    ),
    omega arith,
  )
  actions-IsGood _ a h = ((h, tt), omega arith)

  -- An event becomes at most two actions. Each of them has the kind of the event's name, the amount
  -- and the wallet of its parameters, and its place and identifiers.
  pub classify_event_as_action-IsActionOf :
      (registry : ContractRegistry) (actions : List EconomicAction)
      → classify_event_as_action sha256 decoded registry ≡ some actions
      → All (IsActionOf decoded) actions × (length actions ≤ 2)
  unfolding classify_event_as_action
  classify_event_as_action-IsActionOf registry actions e =
      let r = role_or "unknown" (role registry decoded.contract_address) in
      elim (Bool-cases (r == "unknown")) [
        | inl unknown ↦ empty (ground arith)
        | inr known ↦ elim (Option-cases (lookup decoded.event_name event_name_to_kind)) [
          | inl other ↦ empty (ground arith)
          | inr (k, named) ↦ elim (Option-cases (extract_amount_link decoded)) [
            | inl raised ↦ absurd (ground arith)
            | inr (n, amount) ↦
                let same : actions_of_kind sha256 decoded k (base_action sha256 decoded r k n)
                    ≡ actions =
                  ground arith in
                rw (← same) (actions-IsGood k _ (base-IsActionOf r k n named amount))
          ]
        ]
      ]
    where
      empty : [] ≡ actions → IsGood actions
      empty same = rw (← same) (tt, omega arith)
