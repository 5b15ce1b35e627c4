-- ===== src/Decoder/Results.antt =====
-- The result of a single decode attempt, in decoder/types.py and the ABI codec. The free text of `failure_detail` is left out.
use chainlink_economic_ledge.Prelude.{ℕ, String, Option, none, some, List, Bool, true, false, ◌≡◌}
use chainlink_economic_ledge.Decoder.Types.{Value}

pub data DecodeFailureReason : Type 0 where
  unknown_topic abi_mismatch malformed_data unregistered_contract phase_not_found :
      DecodeFailureReason

pub record DecodeResult {ℓ} (A : Type ℓ) : Type ℓ where
  pub raw_id : String
  pub success : Bool
  pub decoded : Option A
  pub failure_reason : Option DecodeFailureReason

module _ {ℓ} {A : Type ℓ} where
  abbrev pub failed : String → DecodeFailureReason → DecodeResult A
  failed raw_id reason = record {
    raw_id = raw_id;
    success = false;
    decoded = none;
    failure_reason = some reason;
  }

  abbrev pub succeeded : String → A → DecodeResult A
  succeeded raw_id a = record {
    raw_id = raw_id;
    success = true;
    decoded = some a;
    failure_reason = none;
  }

  -- Exactly one of the event or call and the reason is there, and `success` says which.
  abbrev pub IsConsistent : DecodeResult A → Type 0
  IsConsistent r = elim r.decoded [
    | none ↦ (r.success ≡ false) × ¬ (r.failure_reason ≡ none)
    | some _ ↦ (r.success ≡ true) × (r.failure_reason ≡ none)
  ]

-- The codec: `eth_abi.decode` of a list of types, `none` where it raises.
abbrev pub AbiDecode : Type 0
AbiDecode = List String → List ℕ → Option (List Value)
