-- ===== src/Prelude/Slices/Laws.antt =====
-- How slices, prefixes and lower case go with `+` on texts.
use Prim.Native.Nat.{ℕ, zero, suc, ◌+◌, ◌-◌}
use Prim.Native.String.{String, ◌++◌}
use mathlib.Core.Path.{◌≡◌, refl, ap, sym, ◌∙◌}
use mathlib.Core.Bool.{true}
use native.Mathlib.Omega.{arith}
use text.Mathlib.TextLemmas.{nil-append, cons-append}
use chainlink_economic_ledge.Prelude.Text.{lower}
use chainlink_economic_ledge.Prelude.Slices.{text_length, text_drop, starts_with}

pub text_length-append : (s t : String) → text_length (s ++ t) ≡ text_length s + text_length t
text_length-append String.[] t = rw (nil-append t) (omega arith)
text_length-append (String.◌∷◌ c s) t =
    rw (cons-append c s t) (omega (arith, text_length-append s t))

pub text_length-lower : (s : String) → text_length (lower s) ≡ text_length s
unfolding lower
text_length-lower String.[] = refl
text_length-lower (String.◌∷◌ c s) = ap suc (text_length-lower s)

pub text_length-text_drop : (n : ℕ) (s : String) → text_length (text_drop n s) ≡ text_length s - n
unfolding text_drop
text_length-text_drop zero s = omega arith
text_length-text_drop (suc n) String.[] = omega arith
text_length-text_drop (suc n) (String.◌∷◌ c s) = omega (arith, text_length-text_drop n s)

pub text_drop-append : (n : ℕ) (s t : String) → text_length s ≡ n → text_drop n (s ++ t) ≡ t
unfolding text_drop
text_drop-append zero String.[] t size = nil-append t
text_drop-append (suc n) String.[] t size = absurd (omega arith)
text_drop-append zero (String.◌∷◌ c s) t size = absurd (omega arith)
text_drop-append (suc n) (String.◌∷◌ c s) t size =
    rw (cons-append c s t) (text_drop-append n s t (omega arith))

pub starts_with-append : (s t : String) → starts_with (s ++ t) s ≡ true
unfolding starts_with
starts_with-append String.[] t = refl
starts_with-append (String.◌∷◌ c s) t =
    rw (cons-append c s t) (ground (arith, starts_with-append s t))

pub lower-append : (s t : String) → lower (s ++ t) ≡ lower s ++ lower t
unfolding lower
lower-append String.[] t = ap lower (nil-append t) ∙ sym (nil-append (lower t))
lower-append (String.◌∷◌ c s) t =
    rw (cons-append c s t, lower-append s t) (sym (cons-append _ (lower s) (lower t)))
