-- ===== src/Decoder/ProxyResolver.antt =====
-- decoder/proxy_resolver.py: the implementation behind a proxy. The call of `eth_getStorageAt` is a
-- parameter, of an address, a slot and a block. An exception is a `none`, that of the call too; the
-- word that it answers may be None.
pub mod Resolution
use Prim.Native.String.{◌++◌}
use chainlink_economic_ledge.Prelude.{
  ℕ, ◌+◌, ◌-◌, String, Option, none, some, Bool, true, false, not, ◌||◌, eqb, eqb_ℤ, string_eq,
  ◌==◌, if◌then◌else◌, ℤ, pos, negsuc, ◌%◌, ◌^◌, ◌≡◌, refl, ap, ◌∙◌, sym, arith, Bool-cases,
  Option-cases, inl, inr, map_some,
}
use chainlink_economic_ledge.Prelude.Text.{lower, lower_idem}
use chainlink_economic_ledge.Prelude.Slices.{
  text_length, text_drop, starts_with, parse_hex_int, format_hex,
}
use chainlink_economic_ledge.Prelude.Dict.{Dict, lookup}
use chainlink_economic_ledge.Decoder.Types.{Value, to_text}

abbrev pub eip1967_impl_slot : String
eip1967_impl_slot = "0x360894a13ba1a3210667c828492db98dca3e2076cc3735a920a3ca505d382bbc"

abbrev pub eip1967_admin_slot : String
eip1967_admin_slot = "0xb53127684a568b3173ae13b9f8a6016e243e63b6e8ee1178d6a717850b5d6103"

abbrev pub eip1967_beacon_slot : String
eip1967_beacon_slot = "0xa3f0ad74e5423aebfd80d3ef4346578335a9a72aeaee59ff6cb3582b35133d50"

unfoldable pub strip_0x : String → String
strip_0x s = if starts_with s "0x" || starts_with s "0X" then text_drop 2 s else s

unfoldable pub storage_word_to_address : String → Option String
unfolding strip_0x
storage_word_to_address word =
    let raw = strip_0x word in
    if eqb (text_length raw) 64 then some ("0x" ++ lower (text_drop 24 raw)) else none

-- The keys of the phase in the YAML.
unfoldable pub resolve_implementation_from_config : Dict String Value → Option String
resolve_implementation_from_config contracts_yaml_phase =
    elim (lookup "implementation_address" contracts_yaml_phase) [
      | none ↦ none
      | some impl ↦ elim impl [
        | Value.null ↦ none
        | Value.number n ↦ some (lower (to_text (Value.number n)))
        | Value.text s ↦ some (lower s)
        | Value.bytes b ↦ some (lower (to_text (Value.bytes b)))
      ]
    ]

-- `word and int(word, 16) != 0`; `none` is the exception of `int`.
abbrev pub is_set : String → Option Bool
is_set word =
    if word == ""
    then some false
    else elim (parse_hex_int word) [ none ↦ none | some n ↦ some (not (eqb_ℤ n (pos 0))) ]

-- The address in a slot, if it is set; the outer `none` is an exception.
unfoldable pub address_in_slot : Option (Option String) → Option (Option String)
unfolding storage_word_to_address
address_in_slot none = none
address_in_slot (some none) = some none
address_in_slot (some (some word)) = elim (is_set word) [
  | none ↦ none
  | some set ↦
      if set
      then elim (storage_word_to_address word) [ none ↦ none | some a ↦ some (some a) ]
      else some none
]

-- What the implementation slot gives, else what the beacon slot gives.
abbrev pub or_beacon : Option (Option String) → Option (Option String) → Option (Option String)
or_beacon none beacon = none
or_beacon (some (some implementation)) beacon = some (some implementation)
or_beacon (some none) beacon = beacon

module _ (rpc_call : String → String → ℕ → Option (Option String)) where
  unfoldable pub resolve_implementation_via_rpc : String → ℕ → Option (Option String)
  unfolding address_in_slot
  resolve_implementation_via_rpc proxy_address block_number =
      let proxy = lower proxy_address in
      or_beacon (address_in_slot (rpc_call proxy eip1967_impl_slot block_number))
        (address_in_slot (rpc_call proxy eip1967_beacon_slot block_number))

unfoldable pub is_eip1967_proxy_marker : String → Option Bool
unfolding strip_0x
is_eip1967_proxy_marker slot_value =
    let raw = strip_0x slot_value in
    if eqb (text_length raw) 64
    then map_some (λ n. not (eqb_ℤ n (pos 0))) (parse_hex_int raw)
    else some false

-- `(n - 1) & ((1 << 256) - 1)`
abbrev pub one_less_masked : ℤ → ℕ
one_less_masked (pos n) = (n + 2 ^ 256 - 1) % 2 ^ 256
one_less_masked (negsuc n) = (2 ^ 256 - (n + 2) % 2 ^ 256) % 2 ^ 256

module _ (keccak : String → String) where
  unfoldable pub derive_eip1967_slot : String → Option String
  derive_eip1967_slot label =
      map_some (λ h. "0x" ++ format_hex 64 (one_less_masked h)) (parse_hex_int (keccak label))

  unfoldable pub verify_impl_slot : Option Bool
  unfolding derive_eip1967_slot
  verify_impl_slot =
      map_some (λ slot. lower slot == eip1967_impl_slot)
        (derive_eip1967_slot "eip1967.proxy.implementation")
