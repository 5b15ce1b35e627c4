-- ===== src/Decoder/EventDecoder.antt =====
-- decoder/event_decoder.py: the decoding of logs. The hashes and the ABI codec are parameters; an
-- exception that leaves a function is a `none`.
pub mod Addresses
pub mod Outcome
pub mod Batch
use Prim.Native.String.{◌++◌}
use chainlink_economic_ledge.Prelude.{
  ℕ, zero, suc, ◌+◌, ◌-◌, ◌%◌, String, Option, none, some, List, [], ◌∷◌, map, filter, find?,
  length, Bool, true, false, not, ◌&&◌, ◌||◌, eqb, get_some, string_eq, ◌==◌, if◌then◌else◌,
}
use chainlink_economic_ledge.Prelude.Text.{lower, show_ℕ}
use chainlink_economic_ledge.Prelude.Slices.{
  text_length, text_take, text_drop, starts_with, from_hex, to_hex,
}
use chainlink_economic_ledge.Prelude.Dict.{Dict, insert}
use chainlink_economic_ledge.Decoder.Types.{Value, RawLog, DecodedEvent}
use chainlink_economic_ledge.Decoder.Results.{
  DecodeFailureReason, DecodeResult, failed, succeeded, AbiDecode,
}
use chainlink_economic_ledge.Decoder.Abi.{
  AbiInput, input_name, input_type, is_indexed, AbiEntry, Abi, is_some, event_signature,
}
use chainlink_economic_ledge.Decoder.AbiRegistry.{AbiRegistry, get}

-- The last 40 characters of a text of 66; `none` is the ValueError of another length.
unfoldable pub last_address : String → Option String
last_address topic_hex =
    if eqb (text_length topic_hex) 66
    then some ("0x" ++ lower (text_drop (text_length topic_hex - 40) topic_hex))
    else none

unfoldable pub topic_to_address : String → Option String
unfolding last_address
topic_to_address topic_hex =
    last_address (if starts_with topic_hex "0x" then topic_hex else "0x" ++ topic_hex)

-- `none` is a ValueError: an odd length, or a character that is not hexadecimal.
unfoldable pub hex_to_bytes : String → Option (List ℕ)
hex_to_bytes hex_str =
    let s = if starts_with hex_str "0x" then text_drop 2 hex_str else hex_str in
    if s == "" then some [] else if eqb (text_length s % 2) 0 then from_hex s else none

-- The values of the non-indexed inputs.
abbrev pub data_value : String → Value → Value
data_value type_ Value.null = Value.null
data_value type_ (Value.number n) = Value.number n
data_value type_ (Value.text s) = if type_ == "address" then Value.text (lower s) else Value.text s
data_value type_ (Value.bytes b) =
    if type_ == "address" then Value.bytes b else Value.text ("0x" ++ to_hex b)

-- `for inp, val in zip(inputs, values, strict=True)`; `none` where the lengths differ.
unfoldable pub zip_values :
    Dict String Value → List AbiInput → List Value → Option (Dict String Value)
zip_values params [] [] = some params
zip_values params [] (v ∷ values) = none
zip_values params (inp ∷ inputs) [] = none
zip_values params (inp ∷ inputs) (v ∷ values) =
    zip_values (insert (input_name inp) (data_value (input_type inp) v) params) inputs values

module _ (sha256 : String → String) where
  unfoldable pub compute_raw_log_id : RawLog → String
  compute_raw_log_id log = sha256 (
      "raw_log|"
      ++ (show_ℕ log.chain_id
          ++ ("|"
              ++ (show_ℕ log.block_number
                  ++ ("|" ++ (lower log.tx_hash ++ ("|" ++ show_ℕ log.log_index)))))))

  unfoldable pub compute_decoded_event_id : DecodedEvent → String
  compute_decoded_event_id decoded = sha256 (
      "decoded_event|"
      ++ (show_ℕ decoded.chain_id
          ++ ("|"
              ++ (show_ℕ decoded.block_number
                  ++ ("|" ++ (lower decoded.tx_hash ++ ("|" ++ show_ℕ decoded.log_index)))))))

abbrev pub is_anonymous_event : AbiEntry → Bool
is_anonymous_event e = is_some e.entry_type "event" && e.anonymous

module _ (keccak : String → String) where
  -- An entry is passed over when it is no event, is anonymous, or its signature is a KeyError.
  abbrev pub has_topic : Abi → String → AbiEntry → Bool
  has_topic abi target entry =
      is_some entry.entry_type "event" && not entry.anonymous && elim entry.name [
        | none ↦ false
        | some name ↦ elim (event_signature keccak abi name) [
          | none ↦ false
          | some sig ↦ lower sig == target
        ]
      ]

  unfoldable pub find_event_abi : Abi → String → Option AbiEntry
  find_event_abi abi topic0 =
      let low = lower topic0 in
      let target = if starts_with low "0x" then low else "0x" ++ low in
      find? (has_topic abi target) abi.json_abi

-- The non-indexed inputs: the parameters, or the reason of a failure, or an exception.
pub data DataParams : Type 0 where
  with_params : Dict String Value → DataParams
  fails : DecodeFailureReason → DataParams
  raises : DataParams

module _ (abi_decode : AbiDecode) where
  -- One indexed input, from its topic.
  abbrev pub indexed_value : String → String → Option Value
  indexed_value type_ topic =
      if type_ == "address"
      then elim (topic_to_address topic) [ none ↦ none | some a ↦ some (Value.text a) ]
      else elim (hex_to_bytes topic) [
        | none ↦ none
        | some data_bytes ↦ elim (abi_decode (type_ ∷ []) data_bytes) [
          | none ↦ none
          | some values ↦ elim values [ [] ↦ none | v ∷ _ ↦ some v ]
        ]
      ]

  -- The loop over the indexed inputs, whose exceptions `decode_log` catches.
  unfoldable pub decode_indexed :
      Dict String Value → List AbiInput → List String → Option (Dict String Value)
  decode_indexed params [] topics = some params
  decode_indexed params (inp ∷ inputs) [] = none
  decode_indexed params (inp ∷ inputs) (topic ∷ topics) =
      elim (indexed_value (input_type inp) topic) [
        | none ↦ none
        | some v ↦ decode_indexed (insert (input_name inp) v params) inputs topics
      ]

  unfoldable pub decode_data : List AbiInput → List ℕ → DataParams
  unfolding zip_values
  decode_data [] data_bytes = DataParams.with_params []
  decode_data (inp ∷ inputs) data_bytes =
      if eqb (length data_bytes) 0 || not (eqb (length data_bytes % 32) 0)
      then DataParams.fails DecodeFailureReason.malformed_data
      else elim (abi_decode (map input_type (inp ∷ inputs)) data_bytes) [
        | none ↦ DataParams.fails DecodeFailureReason.abi_mismatch
        | some values ↦ elim (zip_values [] (inp ∷ inputs) values) [
          | none ↦ DataParams.raises
          | some found ↦ DataParams.with_params found
        ]
      ]

-- `out.append(r)` before the rest, where neither raises.
abbrev pub result_before :
    Option (DecodeResult DecodedEvent)
    → Option (List (DecodeResult DecodedEvent))
    → Option (List (DecodeResult DecodedEvent))
result_before none later = none
result_before (some r) none = none
result_before (some r) (some rest) = some (r ∷ rest)

module _ (sha256 keccak : String → String) (abi_decode : AbiDecode) where
  -- The event of a log whose parameters are decoded; the identifier is computed from a first copy.
  unfoldable pub event_of : RawLog → AbiEntry → Dict String Value → Dict String Value → DecodedEvent
  event_of log event_entry indexed_params data_params =
      let decoded_event : DecodedEvent = record {
        raw_log_id = compute_raw_log_id sha256 log;
        decoded_event_id = "";
        chain_id = log.chain_id;
        block_number = log.block_number;
        tx_hash = lower log.tx_hash;
        log_index = log.log_index;
        contract_address = lower log.address;
        event_name = get_some "<unnamed>" event_entry.name;
        event_signature = elim log.topics [ [] ↦ "" | topic0 ∷ _ ↦ lower topic0 ];
        indexed_params = indexed_params;
        data_params = data_params;
      } in
      record decoded_event { decoded_event_id = compute_decoded_event_id sha256 decoded_event }

  unfoldable pub finish :
      RawLog → AbiEntry → Dict String Value → DataParams → Option (DecodeResult DecodedEvent)
  unfolding event_of
  finish log event_entry indexed_params (DataParams.with_params data_params) = some (
      succeeded (compute_raw_log_id sha256 log)
        (event_of log event_entry indexed_params data_params))
  finish log event_entry indexed_params (DataParams.fails reason) =
      some (failed (compute_raw_log_id sha256 log) reason)
  finish log event_entry indexed_params DataParams.raises = none

  -- From the entry of the event and the topics of its indexed inputs on.
  unfoldable pub decode_entry : RawLog → AbiEntry → List String → Option (DecodeResult DecodedEvent)
  unfolding finish decode_indexed decode_data hex_to_bytes
  decode_entry log event_entry topics =
      let raw_id = compute_raw_log_id sha256 log in
      let indexed_inputs = filter is_indexed event_entry.inputs in
      let non_indexed_inputs = filter (λ i. not (is_indexed i)) event_entry.inputs in
      if not (eqb (length indexed_inputs) (length topics))
      then some (failed raw_id DecodeFailureReason.abi_mismatch)
      else elim (decode_indexed abi_decode [] indexed_inputs topics) [
        | none ↦ some (failed raw_id DecodeFailureReason.abi_mismatch)
        | some indexed_params ↦ elim (hex_to_bytes log.log_data) [
          | none ↦ none
          | some data_bytes ↦
              finish log event_entry indexed_params
                (decode_data abi_decode non_indexed_inputs data_bytes)
        ]
      ]

  -- The entry of the event by the topics of the log.
  unfoldable pub decode_by_topics : RawLog → Abi → List String → Option (DecodeResult DecodedEvent)
  unfolding decode_entry find_event_abi
  decode_by_topics log abi [] = elim (find? is_anonymous_event abi.json_abi) [
    | none ↦ some (failed (compute_raw_log_id sha256 log) DecodeFailureReason.unknown_topic)
    | some anon ↦ decode_entry log anon []
  ]
  decode_by_topics log abi (topic0 ∷ topics) = elim (find_event_abi keccak abi topic0) [
    | none ↦ some (failed (compute_raw_log_id sha256 log) DecodeFailureReason.unknown_topic)
    | some event_entry ↦ decode_entry log event_entry topics
  ]

  -- `none` is a ValueError that is not caught.
  unfoldable pub decode_log : RawLog → Abi → Option (DecodeResult DecodedEvent)
  unfolding decode_by_topics
  decode_log log abi = decode_by_topics log abi log.topics

  -- A log, with the ABI of its address and block.
  unfoldable pub decode_registered : AbiRegistry → RawLog → Option (DecodeResult DecodedEvent)
  unfolding decode_log get
  decode_registered registry log = elim (get registry (lower log.address) log.block_number) [
    | none ↦ some (failed (compute_raw_log_id sha256 log) DecodeFailureReason.unregistered_contract)
    | some abi ↦ decode_log log abi
  ]

  unfoldable pub decode_logs_batch :
      AbiRegistry → List RawLog → Option (List (DecodeResult DecodedEvent))
  unfolding decode_registered
  decode_logs_batch registry [] = some []
  decode_logs_batch registry (log ∷ logs) =
      result_before (decode_registered registry log) (decode_logs_batch registry logs)
