-- ===== src/Prelude/Text.antt =====
-- Python's str over the native texts: `lower`, `upper`, `str(int)`, `int(str)` and the pieces that f-strings
-- join. Exact on ASCII, of which the program's hex texts, names and roles consist.
pub mod Numerals
use Prim.Native.Nat.{ℕ, zero, suc, Ordering, ◌+◌, ◌-◌, ◌*◌, ◌/◌, ◌%◌, ◌<◌}
use Prim.Native.Char.{Char, code}
use Prim.Native.String.{String, ◌++◌, compare}
use mathlib.Core.Path.{◌≡◌, refl, ap₂}
use mathlib.Core.Logic.{inl, inr}
use mathlib.Core.Bool.{Bool, true, false, not, ◌&&◌, ◌||◌}
use mathlib.Core.List.{List, [], ◌∷◌, reverse}
use native.Mathlib.Omega.{arith}
use mathlib.Core.Option
use mathlib.Core.Option.{Option, none, some}
use chainlink_economic_ledge.Prelude.Tests.{Bool-cases, ltb, leb, eqb, if◌then◌else◌}
use chainlink_economic_ledge.Prelude.Int.{ℤ, pos, negsuc}

-- The character at a position of a text, or a default.
unfoldable pub char_or : Char → String → ℕ → Char
char_or d String.[] i = d
char_or d (String.◌∷◌ c s) zero = c
char_or d (String.◌∷◌ c s) (suc i) = char_or d s i

is_upper : Char → Bool
is_upper c = leb b'A' (code c) && leb (code c) b'Z'

lower_char : Char → Char
unfolding char_or is_upper
lower_char c = if is_upper c then char_or c "abcdefghijklmnopqrstuvwxyz" (code c - b'A') else c

unfoldable pub lower : String → String
unfolding lower_char
lower String.[] = String.[]
lower (String.◌∷◌ c s) = String.◌∷◌ (lower_char c) (lower s)

is_lower : Char → Bool
is_lower c = leb b'a' (code c) && leb (code c) b'z'

upper_char : Char → Char
unfolding char_or is_lower
upper_char c = if is_lower c then char_or c "ABCDEFGHIJKLMNOPQRSTUVWXYZ" (code c - b'a') else c

unfoldable pub upper : String → String
unfolding upper_char
upper String.[] = String.[]
upper (String.◌∷◌ c s) = String.◌∷◌ (upper_char c) (upper s)

-- The decimal digits of a number; the fuel is the number itself.
pub digits : ℕ → ℕ → String → String
unfolding char_or
digits zero n out = out
digits (suc f) n out =
    let out' = String.◌∷◌ (char_or "0" "0123456789" (n % 10)) out in
    let rest = digits f (n / 10) out' in if ltb n 10 then out' else rest

unfoldable pub show_ℕ : ℕ → String
unfolding digits
show_ℕ n = digits (suc n) n String.[]

unfoldable pub show_ℤ : ℤ → String
unfolding show_ℕ
show_ℤ (pos n) = show_ℕ n
show_ℤ (negsuc n) = "-" ++ show_ℕ (suc n)

-- `sep.join(parts)`
unfoldable pub join : String → List String → String
join sep [] = String.[]
join sep (x ∷ []) = x
join sep (x ∷ y ∷ xs) = x ++ (sep ++ join sep (y ∷ xs))

lower-mixed : lower "0xAbC9" ≡ "0xabc9"
unfolding lower
lower-mixed = refl

show-number : show_ℤ (negsuc 1204) ≡ "-1205"
unfolding show_ℤ
show-number = refl

-- The code points of a text.
abbrev pub codes : String → List ℕ
codes String.[] = []
codes (String.◌∷◌ c s) = code c ∷ codes s

unfoldable pub is_space : ℕ → Bool
is_space c = (leb 9 c && leb c 13) || (leb 28 c && leb c 32)

pub is_digit : ℕ → Bool
is_digit c = leb b'0' c && leb c b'9'

pub strip_left : (ℕ → Bool) → List ℕ → List ℕ
strip_left space [] = []
strip_left space (c ∷ cs) = if space c then strip_left space cs else c ∷ cs

unfoldable pub strip : (ℕ → Bool) → List ℕ → List ℕ
unfolding strip_left
strip space cs = strip_left space (reverse (strip_left space (reverse cs)))

-- Digits, with single underscores between them; `need` says that a digit must come next.
pub scan_digits : Bool → ℕ → List ℕ → Option ℕ
unfolding is_digit
scan_digits need acc [] = if need then none else some acc
scan_digits need acc (c ∷ cs) =
    let digit = scan_digits false (acc * 10 + (c - b'0')) cs in
    let underscore = scan_digits true acc cs in
    if is_digit c then digit else if eqb c b'_' && not need then underscore else none

unfoldable pub negate : ℕ → ℤ
negate zero = pos 0
negate (suc n) = negsuc n

pub signed : List ℕ → Option ℤ
unfolding scan_digits negate
signed [] = none
signed (c ∷ cs) =
    if eqb c b'-'
    then Option.map negate (scan_digits true 0 cs)
    else if eqb c b'+'
    then Option.map pos (scan_digits true 0 cs)
    else Option.map pos (scan_digits true 0 (c ∷ cs))

unfoldable pub parse_int_codes : List ℕ → Option ℤ
unfolding is_space strip signed
parse_int_codes cs = signed (strip is_space cs)

-- `int(s)` of a text in base ten; `none` is the ValueError.
unfoldable pub parse_int : String → Option ℤ
unfolding parse_int_codes
parse_int s = parse_int_codes (codes s)

-- The white space of C, which the functions on bytes skip.
unfoldable pub is_byte_space : ℕ → Bool
is_byte_space c = (leb 9 c && leb c 13) || eqb c 32

-- `int(b)` of bytes.
unfoldable pub parse_int_bytes : List ℕ → Option ℤ
unfolding is_byte_space strip signed
parse_int_bytes bs = signed (strip is_byte_space bs)

parse-number :
    (parse_int " -1_205 " ≡ some (negsuc 1204))
    × (parse_int "0x10" ≡ none)
    × (parse_int "1__0" ≡ none)
unfolding parse_int
parse-number = (refl, refl, refl)

-- `s < t`, by code points.
abbrev pub str_ltb : String → String → Bool
str_ltb s t = elim (compare s t) [ Ordering.lt ↦ true | _ ↦ false ]

each_under : (ℕ → Bool) → ℕ → Bool
each_under test zero = true
each_under test (suc k) = test k && each_under test k

each_under_at : (k i : ℕ) (test : ℕ → Bool) → i < k → each_under test k ≡ true → test i ≡ true
unfolding each_under
each_under_at zero i test small _ = absurd (omega arith)
each_under_at (suc k) i test small each = ground (arith, each_under_at k i test)

letters_lower :
    (c : Char)
    → each_under (λ i. not (is_upper (char_or c "abcdefghijklmnopqrstuvwxyz" i))) 26 ≡ true
unfolding each_under is_upper char_or
letters_lower c = refl

is_upper-lower_char : (c : Char) → is_upper (lower_char c) ≡ false
unfolding lower_char
is_upper-lower_char c = elim (Bool-cases (is_upper c)) [
  | inr other ↦ rw other other
  | inl up ↦
      let i = code c - b'A' in
      let low : not (is_upper (char_or c "abcdefghijklmnopqrstuvwxyz" i)) ≡ true =
        each_under_at 26 i (λ j. not (is_upper (char_or c "abcdefghijklmnopqrstuvwxyz" j)))
          (ground arith) (letters_lower c) in
      rw up (ground arith)
]

lower_char_other : (c : Char) → is_upper c ≡ false → lower_char c ≡ c
unfolding lower_char
lower_char_other c h = rw h

pub lower_idem : (s : String) → lower (lower s) ≡ lower s
unfolding lower
lower_idem String.[] = refl
lower_idem (String.◌∷◌ c s) =
    ap₂ String.◌∷◌ (lower_char_other (lower_char c) (is_upper-lower_char c)) (lower_idem s)
