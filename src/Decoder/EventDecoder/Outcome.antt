-- ===== src/Decoder/EventDecoder/Outcome.antt =====
-- What the result of decoding a log says of the log.
use chainlink_economic_ledge.Prelude.{
  ℕ, String, Option, none, some, List, [], ◌∷◌, map, filter, find?, length, ◌≡◌, refl, not, eqb,
  string_eq, arith, Bool-cases, Option-cases, inl, inr,
}
use chainlink_economic_ledge.Prelude.Text.{lower}
use chainlink_economic_ledge.Prelude.Dict.{Dict, insert}
use chainlink_economic_ledge.Decoder.Types.{Value, RawLog, DecodedEvent}
use chainlink_economic_ledge.Decoder.Results.{DecodeResult, IsConsistent, AbiDecode}
use chainlink_economic_ledge.Decoder.Abi.{
  AbiInput, input_name, input_type, is_indexed, AbiEntry, Abi,
}
use chainlink_economic_ledge.Decoder.EventDecoder.{
  hex_to_bytes, data_value, zip_values, compute_raw_log_id, compute_decoded_event_id,
  find_event_abi, decode_indexed, DataParams, decode_data, event_of, finish, decode_entry,
  is_anonymous_event, decode_by_topics, decode_log,
}

-- The codec gives one value for each type.
abbrev pub IsCodec : AbiDecode → Type 0
IsCodec abi_decode =
    (types : List String) (data_bytes : List ℕ) (values : List Value)
    → abi_decode types data_bytes ≡ some values
    → length values ≡ length types

zip_values-total :
    (params : Dict String Value) (inputs : List AbiInput) (values : List Value)
    → length values ≡ length (map input_type inputs)
    → ¬ (zip_values params inputs values ≡ none)
unfolding zip_values
zip_values-total params [] [] same = λ e. cc e
zip_values-total params [] (v ∷ values) same = absurd (omega arith)
zip_values-total params (inp ∷ inputs) [] same = absurd (omega arith)
zip_values-total params (inp ∷ inputs) (v ∷ values) same =
    zip_values-total (insert (input_name inp) (data_value (input_type inp) v) params) inputs values
      (omega arith)

decode_data-total :
    (abi_decode : AbiDecode)
    → IsCodec abi_decode
    → (inputs : List AbiInput) (data_bytes : List ℕ)
    → ¬ (decode_data abi_decode inputs data_bytes ≡ DataParams.raises)
unfolding decode_data
decode_data-total abi_decode codec [] data_bytes = λ e. cc e
decode_data-total abi_decode codec (inp ∷ inputs) data_bytes =
    elim (Option-cases (abi_decode (map input_type (inp ∷ inputs)) data_bytes)) [
      | inl failed_ ↦ ground arith
      | inr (values, decoded) ↦
          let total =
            zip_values-total [] (inp ∷ inputs) values
              (codec (map input_type (inp ∷ inputs)) data_bytes values decoded) in
          ground (arith, total)
    ]

module _ (sha256 keccak : String → String) (abi_decode : AbiDecode) where
  -- The event has the place and the identifiers of its log.
  pub record IsEventOf (log : RawLog) (e : DecodedEvent) : Type 0 where
    pub raw_log_id : e.raw_log_id ≡ compute_raw_log_id sha256 log
    pub decoded_event_id : e.decoded_event_id ≡ compute_decoded_event_id sha256 e
    pub chain_id : e.chain_id ≡ log.chain_id
    pub block_number : e.block_number ≡ log.block_number
    pub tx_hash : e.tx_hash ≡ lower log.tx_hash
    pub log_index : e.log_index ≡ log.log_index
    pub contract_address : e.contract_address ≡ lower log.address

  abbrev pub IsResultFor : RawLog → DecodeResult DecodedEvent → Type 0
  IsResultFor log r =
      (r.raw_id ≡ compute_raw_log_id sha256 log)
      × IsConsistent r
      × elim r.decoded [ none ↦ Unit | some e ↦ IsEventOf log e ]

  -- The outcome of decoding a log, an exception included.
  abbrev pub Settles : RawLog → Option (DecodeResult DecodedEvent) → Type 0
  Settles log none = hex_to_bytes log.log_data ≡ none
  Settles log (some r) = IsResultFor log r

  event_of-IsEventOf :
      (log : RawLog) (entry : AbiEntry) (indexed data_ : Dict String Value)
      → IsEventOf log (event_of sha256 keccak abi_decode log entry indexed data_)
  unfolding event_of compute_decoded_event_id
  event_of-IsEventOf log entry indexed data_ = record {
    raw_log_id = refl;
    decoded_event_id = refl;
    chain_id = refl;
    block_number = refl;
    tx_hash = refl;
    log_index = refl;
    contract_address = refl;
  }

  finish-Settles :
      (log : RawLog) (entry : AbiEntry) (indexed : Dict String Value) (d : DataParams)
      → ¬ (d ≡ DataParams.raises)
      → Settles log (finish sha256 keccak abi_decode log entry indexed d)
  unfolding finish
  finish-Settles log entry indexed (DataParams.with_params data_) total =
      (refl, (refl, refl), event_of-IsEventOf log entry indexed data_)
  finish-Settles log entry indexed (DataParams.fails reason) total = (refl, (refl, λ n. cc n), tt)
  finish-Settles log entry indexed DataParams.raises total = absurd (total refl)

  decode_entry-Settles :
      IsCodec abi_decode
      → (log : RawLog) (entry : AbiEntry) (topics : List String)
      → Settles log (decode_entry sha256 keccak abi_decode log entry topics)
  unfolding decode_entry
  decode_entry-Settles codec log entry topics =
      elim (Bool-cases (not (eqb (length (filter is_indexed entry.inputs)) (length topics)))) [
        | inl mismatch ↦ rw mismatch (refl, (refl, λ e. cc e), tt)
        | inr fits ↦
            rw fits
              (elim (Option-cases
                (decode_indexed abi_decode [] (filter is_indexed entry.inputs) topics)) [
                  | inl bad ↦ rw bad (refl, (refl, λ e. cc e), tt)
                  | inr (indexed, decoded) ↦
                      rw decoded (elim (Option-cases (hex_to_bytes log.log_data)) [
                        | inl bad ↦ rw bad bad
                        | inr (data_bytes, read) ↦ rw read (
                            finish-Settles log entry indexed
                              (decode_data abi_decode
                                (filter (λ i. not (is_indexed i)) entry.inputs) data_bytes)
                              (decode_data-total abi_decode codec
                                (filter (λ i. not (is_indexed i)) entry.inputs) data_bytes))
                      ])
                ])
      ]

  decode_by_topics-Settles :
      IsCodec abi_decode
      → (log : RawLog) (abi : Abi) (topics : List String)
      → Settles log (decode_by_topics sha256 keccak abi_decode log abi topics)
  unfolding decode_by_topics
  decode_by_topics-Settles codec log abi [] =
      elim (Option-cases (find? is_anonymous_event abi.json_abi)) [
        | inl missing ↦ rw (decode_by_topics, missing) (refl, (refl, λ n. cc n), tt)
        | inr (entry, found) ↦
            rw (decode_by_topics, found) (decode_entry-Settles codec log entry [])
      ]
  decode_by_topics-Settles codec log abi (topic0 ∷ topics) =
      elim (Option-cases (find_event_abi keccak abi topic0)) [
        | inl missing ↦ rw (decode_by_topics, missing) (refl, (refl, λ n. cc n), tt)
        | inr (entry, found) ↦
            rw (decode_by_topics, found) (decode_entry-Settles codec log entry topics)
      ]

  -- With a codec that gives one value for each type, an exception leaves the decoding of a log only
  -- where the log's data are no hexadecimal text of whole bytes. Otherwise the result carries the
  -- identifier of the raw log and either an event with the place of the log and the identifiers of
  -- both, or a reason, never both and never neither.
  pub decode_log-Settles :
      IsCodec abi_decode
      → (log : RawLog) (abi : Abi) → Settles log (decode_log sha256 keccak abi_decode log abi)
  unfolding decode_log
  decode_log-Settles codec log abi = decode_by_topics-Settles codec log abi log.topics
