-- ===== src/Prelude/Slices.antt =====
-- Python's slices of texts, and the hexadecimal form of bytes; a byte is a number.
pub mod Laws
use Prim.Native.Nat.{ℕ, zero, suc, ◌+◌, ◌-◌, ◌*◌, ◌/◌, ◌%◌}
use Prim.Native.Char.{Char, code}
use Prim.Native.String.{String, ◌++◌}
use mathlib.Core.Path.{◌≡◌, refl}
use mathlib.Core.Bool.{Bool, true, false, not, ◌&&◌, ◌||◌}
use mathlib.Core.List.{List, [], ◌∷◌}
use mathlib.Core.Option.{Option, none, some}
use chainlink_economic_ledge.Prelude.Tests.{ltb, leb, eqb, if◌then◌else◌, map_some}
use chainlink_economic_ledge.Prelude.Lists.{any}
use chainlink_economic_ledge.Prelude.Text.{char_or, codes, is_byte_space, is_space, strip, negate}
use chainlink_economic_ledge.Prelude.Int.{ℤ, pos}

-- `len(s)`
abbrev pub text_length : String → ℕ
text_length String.[] = 0
text_length (String.◌∷◌ c s) = suc (text_length s)

-- `s[:n]`
unfoldable pub text_take : ℕ → String → String
text_take zero s = String.[]
text_take (suc n) String.[] = String.[]
text_take (suc n) (String.◌∷◌ c s) = String.◌∷◌ c (text_take n s)

-- `s[n:]`
unfoldable pub text_drop : ℕ → String → String
text_drop zero s = s
text_drop (suc n) String.[] = String.[]
text_drop (suc n) (String.◌∷◌ c s) = text_drop n s

-- `s.startswith(p)`
unfoldable pub starts_with : String → String → Bool
starts_with s String.[] = true
starts_with String.[] (String.◌∷◌ d p) = false
starts_with (String.◌∷◌ c s) (String.◌∷◌ d p) = eqb (code c) (code d) && starts_with s p

hex_value : ℕ → Option ℕ
hex_value c =
    if leb b'0' c && leb c b'9'
    then some (c - b'0')
    else if leb b'a' c && leb c b'f'
    then some (c - b'a' + 10)
    else if leb b'A' c && leb c b'F'
    then some (c - b'A' + 10)
    else none

-- A first digit waits for the second; white space may stand between bytes.
read_hex : Option ℕ → List ℕ → Option (List ℕ)
unfolding hex_value is_byte_space
read_hex none [] = some []
read_hex (some high) [] = none
read_hex none (c ∷ cs) = elim (is_byte_space c) [
  | true ↦ read_hex none cs
  | false ↦ elim (hex_value c) [ none ↦ none | some high ↦ read_hex (some high) cs ]
]
read_hex (some high) (c ∷ cs) = elim (hex_value c) [
  | none ↦ none
  | some low ↦ map_some (λ bs. (high * 16 + low) ∷ bs) (read_hex none cs)
]

-- `bytes.fromhex(s)`; `none` is the ValueError.
unfoldable pub from_hex : String → Option (List ℕ)
unfolding read_hex
from_hex s = read_hex none (codes s)

-- Hexadecimal digits with single underscores between them; `need` says that a digit must come next.
scan_hex : Bool → ℕ → List ℕ → Option ℕ
unfolding hex_value
scan_hex need acc [] = if need then none else some acc
scan_hex need acc (c ∷ cs) =
    let underscore = scan_hex true acc cs in
    elim (hex_value c) [
      | some d ↦ scan_hex false (acc * 16 + d) cs
      | none ↦ if eqb c b'_' && not need then underscore else none
    ]

-- After the prefix a single underscore may stand.
after_prefix : List ℕ → Option ℕ
unfolding scan_hex
after_prefix [] = none
after_prefix (c ∷ cs) = if eqb c b'_' then scan_hex true 0 cs else scan_hex true 0 (c ∷ cs)

hex_magnitude : List ℕ → Option ℕ
unfolding after_prefix
hex_magnitude [] = none
hex_magnitude (c ∷ []) = scan_hex true 0 (c ∷ [])
hex_magnitude (c ∷ d ∷ cs) =
    if eqb c b'0' && (eqb d b'x' || eqb d b'X')
    then after_prefix cs
    else scan_hex true 0 (c ∷ d ∷ cs)

signed_hex : List ℕ → Option ℤ
unfolding hex_magnitude negate
signed_hex [] = none
signed_hex (c ∷ cs) =
    if eqb c b'-'
    then map_some negate (hex_magnitude cs)
    else if eqb c b'+'
    then map_some pos (hex_magnitude cs)
    else map_some pos (hex_magnitude (c ∷ cs))

-- `int(s, 16)`; `none` is the ValueError.
unfoldable pub parse_hex_int : String → Option ℤ
unfolding is_space strip signed_hex
parse_hex_int s = signed_hex (strip is_space (codes s))

hex_char : ℕ → Char
unfolding char_or
hex_char n = char_or "0" "0123456789abcdef" n

-- `b.hex()`
unfoldable pub to_hex : List ℕ → String
unfolding hex_char
to_hex [] = String.[]
to_hex (b ∷ bs) = String.◌∷◌ (hex_char (b / 16)) (String.◌∷◌ (hex_char (b % 16)) (to_hex bs))

hex_digits : ℕ → ℕ → String → String
unfolding hex_char
hex_digits zero n out = out
hex_digits (suc f) n out =
    let out' = String.◌∷◌ (hex_char (n % 16)) out in
    let rest = hex_digits f (n / 16) out' in if ltb n 16 then out' else rest

zeros : ℕ → String → String
zeros zero s = s
zeros (suc n) s = String.◌∷◌ "0" (zeros n s)

-- `format(n, f"0{width}x")`; the fuel of the digits is the number itself.
unfoldable pub format_hex : ℕ → ℕ → String
unfolding hex_digits zeros
format_hex width n = let s = hex_digits (suc n) n String.[] in zeros (width - text_length s) s

printable : ℕ → Char
unfolding char_or
printable c =
    char_or "?"
      " !\"#$%&'()*+,-./0123456789:;<=>?@ABCDEFGHIJKLMNOPQRSTUVWXYZ[\\]^_`abcdefghijklmnopqrstuvwxyz{|}~"
      (c - 32)

-- A byte between quotes of the given code.
escaped : ℕ → ℕ → String
unfolding printable hex_char
escaped quote c =
    if eqb c quote || eqb c b'\\'
    then "\\" ++ String.◌∷◌ (printable c) String.[]
    else if eqb c 9
    then "\\t"
    else if eqb c 10
    then "\\n"
    else if eqb c 13
    then "\\r"
    else if leb 32 c && ltb c 127
    then String.◌∷◌ (printable c) String.[]
    else "\\x" ++ String.◌∷◌ (hex_char (c / 16)) (String.◌∷◌ (hex_char (c % 16)) String.[])

escape_all : ℕ → List ℕ → String
unfolding escaped
escape_all quote [] = String.[]
escape_all quote (c ∷ cs) = escaped quote c ++ escape_all quote cs

-- `str(b)` of bytes.
unfoldable pub repr_bytes : List ℕ → String
unfolding escape_all
repr_bytes bs =
    if any (λ c. eqb c b'\'') bs && not (any (λ c. eqb c b'"') bs)
    then "b\"" ++ (escape_all b'"' bs ++ "\"")
    else "b'" ++ (escape_all b'\'' bs ++ "'")

hex_numbers :
    (parse_hex_int " 0x_1F " ≡ some (pos 31))
    × (parse_hex_int "1f" ≡ some (pos 31))
    × (parse_hex_int "0x" ≡ none)
    × (format_hex 6 43_981 ≡ "00abcd")
unfolding parse_hex_int format_hex
hex_numbers = (refl, refl, refl, refl)

slices :
    (text_take 2 "0xab" ≡ "0x")
    × (text_drop 2 "0xab" ≡ "ab")
    × (starts_with "0xab" "0x" ≡ true)
    × (from_hex "0aF 1" ≡ none)
    × (from_hex "0a F1" ≡ some (10 ∷ 241 ∷ []))
    × (to_hex (10 ∷ 241 ∷ []) ≡ "0af1")
    × (repr_bytes (97 ∷ 39 ∷ 0 ∷ []) ≡ "b\"a'\\x00\"")
unfolding text_take text_drop starts_with from_hex to_hex repr_bytes
slices = (refl, refl, refl, refl, refl, refl, refl)
