-- ===== src/Decoder/ProxyResolver/Resolution.antt =====
-- What the resolver returns.
use Prim.Native.String.{◌++◌}
use chainlink_economic_ledge.Prelude.{
  ℕ, ◌+◌, String, Option, none, some, true, false, eqb, string_eq, ◌≡◌, refl, ap, ◌∙◌, arith,
  Bool-cases, Option-cases, inl, inr, ◌⊎◌,
}
use chainlink_economic_ledge.Prelude.Text.{lower, lower_idem}
use chainlink_economic_ledge.Prelude.Slices.{text_length, text_drop}
use chainlink_economic_ledge.Prelude.Slices.Laws.{
  text_length-append, text_length-lower, text_length-text_drop, lower-append,
}
use chainlink_economic_ledge.Decoder.ProxyResolver.{
  eip1967_impl_slot, eip1967_beacon_slot, strip_0x, storage_word_to_address, is_set,
  address_in_slot, or_beacon, resolve_implementation_via_rpc,
}

-- An answer of no word, or of a word of zero.
abbrev pub IsUnset : Option (Option String) → Type 0
IsUnset answer =
    (answer ≡ some none)
    ⊎ ((word : String) × (answer ≡ some (some word)) × (is_set word ≡ some false))

-- An answer of a word that is not zero and has an address.
abbrev pub HasAddress : Option (Option String) → String → Type 0
HasAddress answer a =
    (word : String) × (answer ≡ some (some word))
    × (is_set word ≡ some true)
    × (storage_word_to_address word ≡ some a)

-- The result of reading a slot: nothing where it is not set, else an address of 20 bytes.
abbrev pub IsRead : Option (Option String) → Option (Option String) → Type 0
IsRead answer none = Unit
IsRead answer (some none) = IsUnset answer
IsRead answer (some (some a)) = HasAddress answer a × (text_length a ≡ 42) × (lower a ≡ a)

storage_word_to_address-text_length :
    (word : String) {a : String}
    → storage_word_to_address word ≡ some a
    → (text_length a ≡ 42) × (lower a ≡ a)
unfolding storage_word_to_address lower
storage_word_to_address-text_length word {a} e =
    elim (Bool-cases (eqb (text_length (strip_0x word)) 64)) [
      | inr other ↦ cc (rw (storage_word_to_address, other) at e)
      | inl full ↦
          let rest = text_drop 24 (strip_0x word) in
          let long : text_length (lower rest) ≡ 40 =
            ground (arith, text_length-lower rest, text_length-text_drop 24 (strip_0x word)) in
          let same : "0x" ++ lower rest ≡ a = cc (rw (storage_word_to_address, full) at e) in
          rw (← same) (
            text_length-append "0x" (lower rest) ∙ ap (λ n. 2 + n) long,
            lower-append "0x" (lower rest) ∙ ap (λ s. lower "0x" ++ s) (lower_idem rest) ∙ refl,
          )
    ]

address_in_slot-IsRead : (answer : Option (Option String)) → IsRead answer (address_in_slot answer)
unfolding address_in_slot
address_in_slot-IsRead none = tt
address_in_slot-IsRead (some none) = inl refl
address_in_slot-IsRead (some (some word)) = elim (Option-cases (is_set word)) [
  | inl raises ↦ rw (address_in_slot, raises) tt
  | inr (set, read) ↦ elim (Bool-cases set) [
    | inr unset ↦ rw (address_in_slot, read, unset) (inr (word, refl, read ∙ ap some unset))
    | inl is_true ↦ elim (Option-cases (storage_word_to_address word)) [
      | inl bad ↦ rw (address_in_slot, read, is_true, bad) tt
      | inr (a, found) ↦
          let shape = storage_word_to_address-text_length word found in
          rw (address_in_slot, read, is_true, found)
            ((word, refl, read ∙ ap some is_true, found), shape.0, shape.1)
    ]
  ]
]

-- What the answers for the two slots say of the result.
abbrev pub IsResolved :
    Option (Option String) → Option (Option String) → Option (Option String) → Type 0
IsResolved impl beacon none = Unit
IsResolved impl beacon (some none) = IsUnset impl × IsUnset beacon
IsResolved impl beacon (some (some a)) =
    (text_length a ≡ 42)
    × (lower a ≡ a)
    × (HasAddress impl a ⊎ (IsUnset impl × HasAddress beacon a))

from_beacon :
    (impl beacon found : Option (Option String))
    → IsUnset impl
    → IsRead beacon found
    → IsResolved impl beacon found
from_beacon impl beacon none unset read = tt
from_beacon impl beacon (some none) unset read = (unset, read)
from_beacon impl beacon (some (some a)) unset read = (read.1, read.2, inr (unset, read.0))

or_beacon-IsResolved :
    (impl beacon first second : Option (Option String))
    → IsRead impl first
    → IsRead beacon second
    → IsResolved impl beacon (or_beacon first second)
or_beacon-IsResolved impl beacon none second h k = tt
or_beacon-IsResolved impl beacon (some (some a)) second h k = (h.1, h.2, inl h.0)
or_beacon-IsResolved impl beacon (some none) second h k = from_beacon impl beacon second h k

module _ (rpc_call : String → String → ℕ → Option (Option String)) where
  -- When no exception leaves it, the resolver returns nothing only if both slots are not set;
  -- otherwise it returns a lower-case address of 20 bytes, that in the implementation slot where that
  -- is set and that in the beacon slot where only the beacon slot is.
  pub resolve_implementation_via_rpc-IsResolved :
      (proxy_address : String) (block_number : ℕ)
      → let proxy = lower proxy_address in
        IsResolved
          (rpc_call proxy eip1967_impl_slot block_number)
          (rpc_call proxy eip1967_beacon_slot block_number)
          (resolve_implementation_via_rpc rpc_call proxy_address block_number)
  unfolding resolve_implementation_via_rpc
  resolve_implementation_via_rpc-IsResolved proxy_address block_number =
      let proxy = lower proxy_address in
      let impl = rpc_call proxy eip1967_impl_slot block_number in
      let beacon = rpc_call proxy eip1967_beacon_slot block_number in
      or_beacon-IsResolved impl beacon (address_in_slot impl) (address_in_slot beacon)
        (address_in_slot-IsRead impl) (address_in_slot-IsRead beacon)
