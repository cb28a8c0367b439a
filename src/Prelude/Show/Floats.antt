-- ===== src/Prelude/Show/Floats.antt =====
-- How `fmt.Sprint` writes a whole float64: with an exponent from 10^6 on.
use Prim.Native.Nat.{ℕ, zero, suc, ◌-◌, ◌/◌, ◌%◌}
use Prim.Native.String.{String, ◌++◌}
use mathlib.Core.Path.{◌≡◌, refl}
use cluster_recorder.Prelude.Tests.{ltb, ◌==◌, if◌then◌else◌}
use cluster_recorder.Prelude.Show.{show}

text_length : String → ℕ
text_length String.[] = 0
text_length (String.◌∷◌ c s) = suc (text_length s)

-- Without the zeros at the end.
without_zeros : ℕ → ℕ → ℕ
without_zeros zero n = n
without_zeros (suc fuel) n =
    let rest = without_zeros fuel (n / 10) in if n % 10 == 0 then rest else n

-- A point after the first digit, if there are others.
pointed : String → String
pointed String.[] = ""
pointed (String.◌∷◌ c String.[]) = String.◌∷◌ c String.[]
pointed (String.◌∷◌ c s) = String.◌∷◌ c ("." ++ s)

-- The exponent has at least two digits; a float64 has at most 309 digits.
unfoldable pub show_float : ℕ → String
unfolding without_zeros pointed text_length
show_float n =
    if ltb n 1000000
    then show n
    else let exponent = text_length (show n) - 1 in
      pointed (show (without_zeros 309 n))
      ++ ("e+" ++ ((if ltb exponent 10 then "0" else "") ++ show exponent))

samples :
    (show_float 1450 ≡ "1450")
    × (show_float 8388607 ≡ "8.388607e+06")
    × (show_float 1000000 ≡ "1e+06")
unfolding show_float show
samples = (refl, refl, refl)
