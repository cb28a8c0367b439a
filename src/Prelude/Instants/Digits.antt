-- ===== src/Prelude/Instants/Digits.antt =====
-- A text of digits only is no date.
use mathlib.Core.Path.{◌≡◌, refl}
use mathlib.Core.Bool.{true}
use mathlib.Core.Option.{none}
use mathlib.Core.List.{[], ◌∷◌}
use native.Mathlib.Omega.{arith}
use cluster_recorder.Prelude.Lists.{All}
use cluster_recorder.Prelude.Numerals.{is_digit}
use cluster_recorder.Prelude.Fields.{Codes}
use cluster_recorder.Prelude.Instants.{expect, parse_rfc3339}

abbrev AllDigits : Codes → Type 0
AllDigits s = All (λ c. is_digit c ≡ true) s

expect_dash : (s : Codes) → AllDigits s → expect b'-' s ≡ none
unfolding expect
expect_dash [] h = refl
expect_dash (c ∷ s) h = ground arith

pub parse_rfc3339-digits : (s : Codes) → AllDigits s → parse_rfc3339 s ≡ none
unfolding parse_rfc3339
parse_rfc3339-digits [] h = refl
parse_rfc3339-digits (a ∷ []) h = rw h.0 refl
parse_rfc3339-digits (a ∷ b ∷ []) h = rw (h.0, h.1.0) refl
parse_rfc3339-digits (a ∷ b ∷ c ∷ []) h = rw (h.0, h.1.0, h.1.1.0) refl
parse_rfc3339-digits (a ∷ b ∷ c ∷ d ∷ s) h =
    rw (h.0, h.1.0, h.1.1.0, h.1.1.1.0) (rw (expect_dash s h.1.1.1.1) refl)
