-- ===== src/Prelude/Text.antt =====
-- Texts: equality and Go's `<`, the lexicographic order of the bytes. On UTF-8 that is the
-- order of the code points, which the native comparison goes by.
use Prim.Native.Nat.{ℕ, Ordering, compare as compare_ℕ}
use Prim.Native.Char.{code}
use Prim.Native.String.compare
use Prim.Native.String.{String, compare, then}
use mathlib.Core.Path.{◌≡◌, ◌∙◌, sym}
use mathlib.Core.Bool.{Bool, true, false}
use native.Mathlib.Omega.{arith}
use text.Mathlib.Text.{is_lt}
use text.Mathlib.TextEquality.{path_by_compare}
use text.Mathlib.TextPositions.{compare_refl}
pub use text.Mathlib.Text.{◌==◌ as str_eq}
pub use text.Mathlib.TextEquality.{eq_iff}
pub use text.Mathlib.TextPositions.{eq_refl}

abbrev pub text_lt : String → String → Bool
text_lt s t = is_lt (compare s t)

-- One step of the two inductions below, on the code points a, b, c at the heads of the texts.
step_trans :
    (a b c : ℕ) (r s t : Ordering)
    → (r ≡ Ordering.lt → s ≡ Ordering.lt → t ≡ Ordering.lt)
    → then (compare_ℕ a b) r ≡ Ordering.lt
    → then (compare_ℕ b c) s ≡ Ordering.lt
    → then (compare_ℕ a c) t ≡ Ordering.lt
step_trans a b c r s t ih p q = ground arith

step_flip :
    (a b : ℕ) (r s : Ordering)
    → (r ≡ Ordering.gt → s ≡ Ordering.lt)
    → then (compare_ℕ a b) r ≡ Ordering.gt
    → then (compare_ℕ b a) s ≡ Ordering.lt
step_flip a b r s ih p = ground arith

compare_trans :
    (s t u : String)
    → compare s t ≡ Ordering.lt
    → compare t u ≡ Ordering.lt
    → compare s u ≡ Ordering.lt
compare_trans String.[] String.[] String.[] p q = p
compare_trans String.[] (String.◌∷◌ d t) String.[] p q = absurd (cc (compare.cons-nil d t))
compare_trans String.[] t (String.◌∷◌ e u) p q = compare.nil-cons e u
compare_trans (String.◌∷◌ c s) String.[] u p q = absurd (cc (compare.cons-nil c s))
compare_trans (String.◌∷◌ c s) (String.◌∷◌ d t) String.[] p q = absurd (cc (compare.cons-nil d t))
compare_trans (String.◌∷◌ c s) (String.◌∷◌ d t) (String.◌∷◌ e u) p q =
    compare.cons-cons c e s u
    ∙ step_trans (code c) (code d) (code e) (compare s t) (compare t u) (compare s u)
        (compare_trans s t u) (sym (compare.cons-cons c d s t) ∙ p)
        (sym (compare.cons-cons d e t u) ∙ q)

compare_flip : (s t : String) → compare s t ≡ Ordering.gt → compare t s ≡ Ordering.lt
compare_flip String.[] String.[] p = absurd (cc compare.nil-nil)
compare_flip String.[] (String.◌∷◌ d t) p = absurd (cc (compare.nil-cons d t))
compare_flip (String.◌∷◌ c s) String.[] p = compare.nil-cons c s
compare_flip (String.◌∷◌ c s) (String.◌∷◌ d t) p =
    compare.cons-cons d c t s
    ∙ step_flip (code c) (code d) (compare s t) (compare t s) (compare_flip s t)
        (sym (compare.cons-cons c d s t) ∙ p)

pub text_lt_irrefl : (s : String) → text_lt s s ≡ false
text_lt_irrefl s = ground (arith, compare_refl s)

pub text_lt_trans : (s t u : String) → text_lt s t ≡ true → text_lt t u ≡ true → text_lt s u ≡ true
text_lt_trans s t u p q = ground (arith, compare_trans s t u)

pub text_lt_total : (s t : String) → text_lt s t ≡ false → text_lt t s ≡ false → s ≡ t
text_lt_total s t p q = ground (arith, compare_flip s t, path_by_compare s t)

-- Of two texts that are not equal one is the smaller.
pub text_lt_asymm : (s t : String) → text_lt s t ≡ true → text_lt t s ≡ false
text_lt_asymm s t p = ground (arith, text_lt_irrefl s, text_lt_trans s t s)
