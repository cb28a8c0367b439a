-- ===== src/Prelude/Show.antt =====
-- Numbers as texts, and texts joined.
pub mod Reading
pub mod Floats
use Prim.Native.Nat.{ℕ, zero, suc, ◌/◌, ◌%◌}
use Prim.Native.String.{String, ◌++◌}
use mathlib.Core.Path.{◌≡◌, refl}
use mathlib.Core.List.{List, [], ◌∷◌}
use cluster_recorder.Prelude.Tests.{ltb, if◌then◌else◌}

abbrev digits : List String
digits = "0" ∷ "1" ∷ "2" ∷ "3" ∷ "4" ∷ "5" ∷ "6" ∷ "7" ∷ "8" ∷ "9" ∷ []

digit_at : List String → ℕ → String
digit_at [] n = ""
digit_at (d ∷ ds) zero = d
digit_at (d ∷ ds) (suc n) = digit_at ds n

show_from : ℕ → ℕ → String
unfolding digit_at
show_from zero n = ""
show_from (suc fuel) n =
    let rest = show_from fuel (n / 10) in
    (if ltb n 10 then "" else rest) ++ digit_at digits (n % 10)

-- `fmt.Sprint` of a number: its decimal digits. There are at most as many as the number says, or one.
unfoldable pub show : ℕ → String
unfolding show_from
show n = show_from (suc n) n

-- `strings.Join`
unfoldable pub join : String → List String → String
join sep [] = ""
join sep (s ∷ ss) = join_after s ss
  where
    join_after : String → List String → String
    join_after s [] = s
    join_after s (t ∷ ts) = s ++ (sep ++ join_after t ts)

-- 1024 has four digits.
show_1024 : show 1024 ≡ "1024"
unfolding show
show_1024 = refl
