-- ===== src/Decoder/TraceTree/Serialized/RoundTrip.antt =====
-- A serialised address is parsed back.
use Prim.Native.Char.{code}
use Prim.Native.String.{◌++◌ as append_text}
use text.Mathlib.TextLemmas.{nil-append, cons-append}
use chainlink_economic_ledge.Prelude.{
  ℕ, String, some, List, [], ◌∷◌, ◌++◌, map, eqb, string_eq, ◌==◌, ◌≡◌, refl, false, ap, ◌∙◌, All,
  arith, ℤ, pos, Bool-cases, inl, inr,
}
use chainlink_economic_ledge.Prelude.Text.{show_ℕ, join, codes, parse_int_codes}
use chainlink_economic_ledge.Prelude.Text.Numerals.{IsDigit, IsNumeral, show_ℕ-IsNumeral}
use chainlink_economic_ledge.Decoder.TraceTree.Serialized.{
  AddressField, split_comma, number_before, parse_parts, parse_trace_address,
  serialize_trace_address,
}

codes-append : (s t : String) → codes (append_text s t) ≡ codes s ++ codes t
codes-append String.[] t = ap codes (nil-append t)
codes-append (String.◌∷◌ c s) t = rw (cons-append c s t) (ap (λ cs. code c ∷ cs) (codes-append s t))

-- Digits hold no comma.
split_comma-digits : (cs : List ℕ) → All IsDigit cs → split_comma cs ≡ cs ∷ []
unfolding split_comma
split_comma-digits [] h = refl
split_comma-digits (c ∷ cs) h =
    let digit : eqb c 44 ≡ false = ground arith in
    rw (split_comma, digit, split_comma-digits cs h.1) refl

split_comma-append :
    (cs rest : List ℕ) → All IsDigit cs → split_comma (cs ++ 44 ∷ rest) ≡ cs ∷ split_comma rest
unfolding split_comma
split_comma-append [] rest h = refl
split_comma-append (c ∷ cs) rest h =
    let digit : eqb c 44 ≡ false = ground arith in
    rw (split_comma, digit, split_comma-append cs rest h.1) refl

parse_parts-numeral :
    (n : ℕ) (cs : List ℕ) (parts : List (List ℕ))
    → IsNumeral n cs
    → parse_parts (cs ∷ parts) ≡ number_before (some (pos n)) (parse_parts parts)
unfolding parse_parts
parse_parts-numeral n cs parts h =
    let read : parse_int_codes (h.first ∷ h.rest) ≡ some (pos n) = rw h.shape at h.reads in
    rw (h.shape, parse_parts, read) refl

parse_parts-join :
    (n : ℕ) (addr : List ℕ)
    → parse_parts (split_comma (codes (join "," (map show_ℕ (n ∷ addr)))))
      ≡ some (map pos (n ∷ addr))
unfolding join parse_parts
parse_parts-join n [] =
    let num = show_ℕ-IsNumeral n in
    rw
      (
        split_comma-digits (codes (show_ℕ n)) num.all,
        parse_parts-numeral n (codes (show_ℕ n)) [] num,
      )
      refl
parse_parts-join n (m ∷ addr) =
    let num = show_ℕ-IsNumeral n in
    let later = join "," (map show_ℕ (m ∷ addr)) in
    let parts : codes (join "," (map show_ℕ (n ∷ m ∷ addr)))
        ≡ codes (show_ℕ n) ++ 44 ∷ codes later =
      codes-append (show_ℕ n) (append_text "," later)
      ∙ ap (λ cs. codes (show_ℕ n) ++ cs) (codes-append "," later) in
    rw
      (
        parts,
        split_comma-append (codes (show_ℕ n)) (codes later) num.all,
        parse_parts-numeral n (codes (show_ℕ n)) (split_comma (codes later)) num,
        parse_parts-join m addr,
      )
      refl

no_parts : {n : ℤ} {ns : List ℤ} → ¬ (parse_parts (split_comma (codes "")) ≡ some (n ∷ ns))
unfolding parse_parts split_comma
no_parts e = cc e

-- Parsing the text of a trace address gives the address back, the root's included.
pub parse_trace_address-serialize_trace_address :
    (addr : List ℕ)
    → parse_trace_address (AddressField.joined (serialize_trace_address addr)) ≡ some (map pos addr)
unfolding parse_trace_address serialize_trace_address join
parse_trace_address-serialize_trace_address [] = refl
parse_trace_address-serialize_trace_address (n ∷ addr) =
    let s = join "," (map show_ℕ (n ∷ addr)) in
    elim (Bool-cases (s == "")) [
      | inr full ↦ rw full (parse_parts-join n addr)
      | inl empty ↦
          let nothing : s ≡ "" = (string_eq.beq_iff s "").0 empty in
          let clash : parse_parts (split_comma (codes "")) ≡ some (map pos (n ∷ addr)) =
            rw nothing at (parse_parts-join n addr) in
          absurd (no_parts clash)
    ]
