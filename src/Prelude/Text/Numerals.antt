-- ===== src/Prelude/Text/Numerals.antt =====
-- The decimal text of a number is read back as the number.
use Prim.Native.Nat.{ℕ, zero, suc, ◌+◌, ◌-◌, ◌*◌, ◌/◌, ◌%◌, ◌<◌, ◌≤◌}
use Prim.Native.Char.{code}
use Prim.Native.String.{String}
use mathlib.Core.Path.{◌≡◌, ◌∙◌, refl, ap}
use mathlib.Core.Logic.{inl, inr}
use mathlib.Core.Bool.{Bool, true, false, ◌&&◌}
use mathlib.Core.List.{List, [], ◌∷◌, reverse, reverse-cons, reverse-reverse}
use mathlib.Core.Option.{some}
use native.Mathlib.Omega.{arith}
use chainlink_economic_ledge.Prelude.Tests.{Bool-cases, ltb, leb, eqb}
use chainlink_economic_ledge.Prelude.Int.{pos}
use chainlink_economic_ledge.Prelude.Lists.{All, All-append}
use chainlink_economic_ledge.Prelude.Text.{
  char_or, digits, show_ℕ, codes, is_space, is_digit, strip_left, strip, scan_digits, signed,
  parse_int_codes,
}

-- The codes of the ten digits.
abbrev pub IsDigit : ℕ → Type 0
IsDigit c = (48 ≤ c) × (c ≤ 57)

digit_code : (k : ℕ) → k < 10 → code (char_or "0" "0123456789" k) ≡ 48 + k
unfolding char_or
digit_code zero h = refl
digit_code (suc zero) h = refl
digit_code (suc (suc zero)) h = refl
digit_code (suc (suc (suc zero))) h = refl
digit_code (suc (suc (suc (suc zero)))) h = refl
digit_code (suc (suc (suc (suc (suc zero))))) h = refl
digit_code (suc (suc (suc (suc (suc (suc zero)))))) h = refl
digit_code (suc (suc (suc (suc (suc (suc (suc zero))))))) h = refl
digit_code (suc (suc (suc (suc (suc (suc (suc (suc zero)))))))) h = refl
digit_code (suc (suc (suc (suc (suc (suc (suc (suc (suc zero))))))))) h = refl
digit_code (suc (suc (suc (suc (suc (suc (suc (suc (suc (suc k)))))))))) h = absurd (omega arith)

-- The number that digits stand for, after those read so far.
abbrev value_after : ℕ → List ℕ → ℕ
value_after acc [] = acc
value_after acc (c ∷ cs) = value_after (acc * 10 + (c - 48)) cs

scan_digits-value_after :
    (need : Bool) (acc c : ℕ) (cs : List ℕ)
    → All IsDigit (c ∷ cs)
    → scan_digits need acc (c ∷ cs) ≡ some (value_after acc (c ∷ cs))
unfolding scan_digits is_digit
scan_digits-value_after need acc c [] h = ground arith
scan_digits-value_after need acc c (d ∷ cs) h =
    let digit : (leb 48 c && leb c 57) ≡ true = ground arith in
    rw (scan_digits, digit) (scan_digits-value_after false (acc * 10 + (c - 48)) d cs h.1)

-- The codes of the digits that are written before a text of digits.
record Writes (n : ℕ) (out : String) (written : String) : Type 0 where
  first : ℕ
  rest : List ℕ
  shape : codes written ≡ first ∷ rest
  all : All IsDigit (codes out) → All IsDigit (first ∷ rest)
  value : value_after 0 (first ∷ rest) ≡ value_after n (codes out)

digits-Writes : (f n : ℕ) (out : String) → n < f → Writes n out (digits f n out)
unfolding digits
digits-Writes zero n out h = absurd (omega arith)
digits-Writes (suc f) n out h =
    let c = char_or "0" "0123456789" (n % 10) in
    let at : code c ≡ 48 + n % 10 = digit_code (n % 10) (omega arith) in
    elim (Bool-cases (ltb n 10)) [
      | inl small ↦
          let less : n < 10 = ground arith in
          rw (digits, small)
            (record {
              first = code c;
              rest = codes out;
              shape = refl;
              all = λ h. ((omega (arith, at), omega (arith, at)), h);
              value = ap (λ a. value_after a (codes out)) (omega (arith, at));
            })
      | inr large ↦
          let below = digits-Writes f (n / 10) (String.◌∷◌ c out) (ground arith) in
          rw (digits, large)
            (record {
              first = below.first;
              rest = below.rest;
              shape = below.shape;
              all = λ h. below.all ((omega (arith, at), omega (arith, at)), h);
              value = below.value ∙ ap (λ a. value_after a (codes out)) (omega (arith, at));
            })
    ]

-- Digits are no white space, so nothing is stripped.
strip_left-digits : (cs : List ℕ) → All IsDigit cs → strip_left is_space cs ≡ cs
unfolding strip_left is_space
strip_left-digits [] h = refl
strip_left-digits (c ∷ cs) h =
    let solid : is_space c ≡ false = ground arith in rw (strip_left, solid) refl

All-reverse : (cs : List ℕ) → All IsDigit cs → All IsDigit (reverse cs)
All-reverse [] h = tt
All-reverse (c ∷ cs) h =
    rw (reverse-cons c cs) (All-append IsDigit (reverse cs) (c ∷ []) (All-reverse cs h.1) (h.0, tt))

strip-digits : (cs : List ℕ) → All IsDigit cs → strip is_space cs ≡ cs
unfolding strip
strip-digits cs h =
    rw
      (
        strip,
        strip_left-digits (reverse cs) (All-reverse cs h),
        reverse-reverse cs,
        strip_left-digits cs h,
      )
      refl

signed-digits :
    (c : ℕ) (cs : List ℕ)
    → All IsDigit (c ∷ cs)
    → signed (c ∷ cs) ≡ some (pos (value_after 0 (c ∷ cs)))
unfolding signed
signed-digits c cs h =
    let plain : eqb c 45 ≡ false = ground arith in
    let unsigned : eqb c 43 ≡ false = ground arith in
    rw (signed, plain, unsigned, scan_digits-value_after true 0 c cs h) refl

-- The codes of the text of a number: digits, at least one, that are read as the number.
pub record IsNumeral (n : ℕ) (cs : List ℕ) : Type 0 where
  pub first : ℕ
  pub rest : List ℕ
  pub shape : cs ≡ first ∷ rest
  pub all : All IsDigit cs
  pub reads : parse_int_codes cs ≡ some (pos n)

pub show_ℕ-IsNumeral : (n : ℕ) → IsNumeral n (codes (show_ℕ n))
unfolding show_ℕ parse_int_codes
show_ℕ-IsNumeral n =
    let w = digits-Writes (suc n) n String.[] (omega arith) in
    let all = w.all tt in
    let read : parse_int_codes (w.first ∷ w.rest) ≡ some (pos n) =
      rw (parse_int_codes, strip-digits (w.first ∷ w.rest) all)
        (signed-digits w.first w.rest all ∙ ap (λ k. some (pos k)) w.value) in
    rw (show_ℕ, w.shape)
      (record { first = w.first; rest = w.rest; shape = refl; all = all; reads = read })
