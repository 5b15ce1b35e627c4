-- ===== src/Decoder/EventDecoder/Batch.antt =====
-- A batch of logs gives one result for each log.
use chainlink_economic_ledge.Prelude.{
  String, Option, none, some, List, [], ◌∷◌, ◌≡◌, refl, All, Option-cases, inl, inr,
}
use chainlink_economic_ledge.Prelude.Text.{lower}
use chainlink_economic_ledge.Decoder.Types.{RawLog, DecodedEvent}
use chainlink_economic_ledge.Decoder.Results.{DecodeResult, IsConsistent, AbiDecode}
use chainlink_economic_ledge.Decoder.AbiRegistry.{AbiRegistry, get}
use chainlink_economic_ledge.Decoder.EventDecoder.{
  hex_to_bytes, compute_raw_log_id, result_before, decode_registered, decode_logs_batch,
}
use chainlink_economic_ledge.Decoder.EventDecoder.Outcome.{IsCodec, Settles, decode_log-Settles}

module _ (sha256 keccak : String → String) (abi_decode : AbiDecode) (registry : AbiRegistry) where
  abbrev pub Each : List RawLog → List (DecodeResult DecodedEvent) → Type 0
  Each [] [] = Unit
  Each [] (r ∷ rs) = ⊥
  Each (log ∷ logs) [] = ⊥
  Each (log ∷ logs) (r ∷ rs) =
      (decode_registered sha256 keccak abi_decode registry log ≡ some r)
      × (r.raw_id ≡ compute_raw_log_id sha256 log)
      × IsConsistent r
      × Each logs rs

  -- The outcome of a batch, an exception included.
  abbrev pub Collects : List RawLog → Option (List (DecodeResult DecodedEvent)) → Type 0
  Collects logs none = ¬ All (λ log. ¬ (hex_to_bytes log.log_data ≡ none)) logs
  Collects logs (some rs) = Each logs rs

  result_before-Collects :
      (log : RawLog) (logs : List RawLog) (o : Option (DecodeResult DecodedEvent))
      (later : Option (List (DecodeResult DecodedEvent)))
      → decode_registered sha256 keccak abi_decode registry log ≡ o
      → Settles sha256 keccak abi_decode log o
      → Collects logs later
      → Collects (log ∷ logs) (result_before o later)
  result_before-Collects log logs none later e h below = λ all. all.0 h
  result_before-Collects log logs (some r) none e h below = λ all. below all.1
  result_before-Collects log logs (some r) (some rs) e h below = (e, h.0, h.1, below)

  decode_registered-Settles :
      IsCodec abi_decode
      → (log : RawLog)
      → Settles sha256 keccak abi_decode log
          (decode_registered sha256 keccak abi_decode registry log)
  unfolding decode_registered
  decode_registered-Settles codec log =
      elim (Option-cases (get registry (lower log.address) log.block_number)) [
        | inl missing ↦ rw (decode_registered, missing) (refl, (refl, λ n. cc n), tt)
        | inr (abi, found) ↦
            rw (decode_registered, found)
              (decode_log-Settles sha256 keccak abi_decode codec log abi)
      ]

  -- When the batch returns, its results stand in the order of the logs, one for each: the result of
  -- a log is that of the log alone, carries the identifier of the raw log, and has either an event or
  -- a reason. The batch raises only when the data of some log are no hexadecimal text of whole bytes.
  -- The codec gives one value for each type.
  pub decode_logs_batch-Collects :
      IsCodec abi_decode
      → (logs : List RawLog)
      → Collects logs (decode_logs_batch sha256 keccak abi_decode registry logs)
  unfolding decode_logs_batch
  decode_logs_batch-Collects codec [] = tt
  decode_logs_batch-Collects codec (log ∷ logs) =
      result_before-Collects log logs (decode_registered sha256 keccak abi_decode registry log)
        (decode_logs_batch sha256 keccak abi_decode registry logs) refl
        (decode_registered-Settles codec log) (decode_logs_batch-Collects codec logs)
