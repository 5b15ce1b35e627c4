-- ===== src/Decoder/EventDecoder/Addresses.antt =====
-- The address in a topic.
use Prim.Native.String.{◌++◌}
use text.Mathlib.TextLemmas.{append_assoc}
use chainlink_economic_ledge.Prelude.{
  ◌+◌, ◌-◌, String, some, true, eqb, ◌≡◌, refl, ap, ◌∙◌, arith, Bool-cases, inl, inr, if◌then◌else◌,
}
use chainlink_economic_ledge.Prelude.Text.{lower, lower_idem}
use chainlink_economic_ledge.Prelude.Slices.{text_length, text_drop, starts_with}
use chainlink_economic_ledge.Prelude.Slices.Laws.{
  text_length-append, text_length-lower, text_length-text_drop, text_drop-append,
  starts_with-append, lower-append,
}
use chainlink_economic_ledge.Decoder.EventDecoder.{last_address, topic_to_address}

last_address-text_length :
    (topic : String) {a : String}
    → last_address topic ≡ some a
    → (text_length a ≡ 42) × (starts_with a "0x" ≡ true) × (lower a ≡ a)
unfolding last_address lower
last_address-text_length topic {a} e = elim (Bool-cases (eqb (text_length topic) 66)) [
  | inr other ↦ cc (rw (last_address, other) at e)
  | inl full ↦
      let rest = text_drop (text_length topic - 40) topic in
      let long : text_length (lower rest) ≡ 40 =
        ground
          (arith, text_length-lower rest, text_length-text_drop (text_length topic - 40) topic) in
      let same : "0x" ++ lower rest ≡ a = cc (rw (last_address, full) at e) in
      rw (← same) (
        text_length-append "0x" (lower rest) ∙ ap (λ n. 2 + n) long,
        starts_with-append "0x" (lower rest),
        lower-append "0x" (lower rest) ∙ ap (λ s. "0x" ++ s) (lower_idem rest),
      )
]

-- Only a topic of 32 bytes has an address, and the address is a lower-case text of 20 bytes after
-- "0x".
pub topic_to_address-text_length :
    (topic : String) {a : String}
    → topic_to_address topic ≡ some a
    → (text_length a ≡ 42) × (starts_with a "0x" ≡ true) × (lower a ≡ a)
unfolding topic_to_address
topic_to_address-text_length topic e =
    last_address-text_length (if starts_with topic "0x" then topic else "0x" ++ topic) e

-- The twelve zero bytes before the address in a topic.
abbrev pub topic_padding : String
topic_padding = "0x000000000000000000000000"

-- The address comes back, in lower case, from the topic that pads its 40 digits to 32 bytes.
pub topic_to_address-topic_padding :
    (digits : String)
    → text_length digits ≡ 40
    → topic_to_address (topic_padding ++ digits) ≡ some ("0x" ++ lower digits)
unfolding topic_to_address last_address
topic_to_address-topic_padding digits size =
    let long : text_length (topic_padding ++ digits) ≡ 66 =
      text_length-append topic_padding digits ∙ ap (λ n. 26 + n) size in
    let hex : starts_with (topic_padding ++ digits) "0x" ≡ true =
      rw (append_assoc "0x" "000000000000000000000000" digits)
        (starts_with-append "0x" ("000000000000000000000000" ++ digits)) in
    rw (topic_to_address, hex, last_address, long)
      (ap (λ s. some ("0x" ++ lower s)) (text_drop-append 26 topic_padding digits refl))
