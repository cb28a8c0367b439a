-- ===== src/Prelude/Durations.antt =====
-- Go's time.ParseDuration: numbers with units, such as 1h30m, in nanoseconds. The fraction of a number is
-- taken exactly here; Go computes it with float64, which may come out a nanosecond apart.
pub mod Fuel
use Prim.Native.Nat.{ℕ, zero, suc, ◌+◌, ◌-◌, ◌*◌, ◌/◌, ◌^◌}
use mathlib.Core.Path.{◌≡◌, refl}
use mathlib.Core.Bool.{Bool, true, false, ◌&&◌, ◌||◌, not}
use mathlib.Core.Option.{Option, none, some}
use mathlib.Core.List.{List, [], ◌∷◌}
use cluster_recorder.Prelude.Tests.{ltb, leb, ◌==◌, if◌then◌else◌}
use cluster_recorder.Prelude.Lists.{length}
use cluster_recorder.Prelude.Numerals.{ℤ, pos, negsuc, negated, codes, is_digit, max_i64}
use cluster_recorder.Prelude.Fields.{Codes, same_codes}

abbrev limit : ℕ
limit = 2 ^ 63

leading_int : Codes → ℕ → Option (ℕ × Codes)
leading_int [] x = some (x, [])
leading_int (c ∷ s) x =
    let y = x * 10 + (c - b'0') in
    let rest = leading_int s y in
    if not (is_digit c)
    then some (x, c ∷ s)
    else if ltb (limit / 10) x || ltb limit y
    then none
    else rest

-- Digits that do not fit are dropped.
leading_fraction : Codes → ℕ → ℕ → Bool → ℕ × ℕ × Codes
leading_fraction [] x scale over = (x, scale, [])
leading_fraction (c ∷ s) x scale over =
    let y = x * 10 + (c - b'0') in
    let lost = over || ltb (max_i64 / 10) x || ltb limit y in
    let rest =
      leading_fraction s (if lost then x else y) (if lost then scale else scale * 10) lost in
    if is_digit c then rest else (x, scale, c ∷ s)

fraction_of : Codes → ℕ × ℕ × Codes
unfolding leading_fraction
fraction_of [] = (0, 1, [])
fraction_of (c ∷ s) = if c == b'.' then leading_fraction s 0 1 false else (0, 1, c ∷ s)

in_unit : ℕ → Bool
in_unit c = not (c == b'.' || is_digit c)

take_unit : Codes → Codes × Codes
unfolding in_unit
take_unit [] = ([], [])
take_unit (c ∷ s) = let (u, rest) = take_unit s in if in_unit c then (c ∷ u, rest) else ([], c ∷ s)

unit_of : Codes → Option ℕ
unit_of u =
    if same_codes u (codes "ns")
    then some 1
    else if same_codes u (codes "us") || same_codes u (codes "µs") || same_codes u (codes "μs")
    then some 1_000
    else if same_codes u (codes "ms")
    then some 1_000_000
    else if same_codes u (codes "s")
    then some 1_000_000_000
    else if same_codes u (codes "m")
    then some 60_000_000_000
    else if same_codes u (codes "h")
    then some 3_600_000_000_000
    else none

-- The digits before and behind the point that were read: there is at least one.
has_digits : Codes → Codes → Codes → Bool
has_digits s s1 s2 = ltb (length s1) (length s) || ltb (length s2 + 1) (length s1)

begins_number : Codes → Bool
begins_number [] = false
begins_number (c ∷ s) = c == b'.' || is_digit c

in_units : ℕ → ℕ → ℕ → Codes → Option ℕ → Option (ℕ × Codes)
in_units v f scale rest none = none
in_units v f scale rest (some unit) =
    let ns = v * unit + f * unit / scale in
    if leb v (limit / unit) && leb ns limit then some (ns, rest) else none

after_int : Codes → Option (ℕ × Codes) → Option (ℕ × Codes)
unfolding fraction_of take_unit unit_of has_digits in_units
after_int s none = none
after_int s (some (v, s1)) =
    let (f, scale, s2) = fraction_of s1 in
    let (u, s3) = take_unit s2 in
    if has_digits s s1 s2 then in_units v f scale s3 (unit_of u) else none

-- One number with its unit, and what follows.
one_part : Codes → Option (ℕ × Codes)
unfolding leading_int after_int begins_number
one_part s = if begins_number s then after_int s (leading_int s 0) else none

-- The loop; the fuel is the number of rounds left.
unfoldable pub sum_parts : ℕ → Codes → ℕ → Option ℕ
unfolding one_part
sum_parts zero s d = none
sum_parts (suc fuel) [] d = some d
sum_parts (suc fuel) (c ∷ s) d = elim (one_part (c ∷ s)) [
  | none ↦ none
  | some (v, rest) ↦
      let more = sum_parts fuel rest (d + v) in if ltb limit (d + v) then none else more
]

all_parts : Codes → Option ℕ
unfolding sum_parts
all_parts [] = none
all_parts (c ∷ s) =
    let sum = sum_parts (suc (length (c ∷ s))) (c ∷ s) 0 in
    if same_codes (c ∷ s) (codes "0") then some 0 else sum

signed : Bool → Option ℕ → Option ℤ
signed neg none = none
signed true (some d) = some (negated d)
signed false (some d) = if leb d max_i64 then some (pos d) else none

unfoldable pub parse_duration : Codes → Option ℤ
unfolding all_parts signed
parse_duration [] = none
parse_duration (c ∷ s) =
    if c == b'-'
    then signed true (all_parts s)
    else if c == b'+'
    then signed false (all_parts s)
    else signed false (all_parts (c ∷ s))

duration_samples :
    (parse_duration (codes "720h") ≡ some (pos 2_592_000_000_000_000))
    × (parse_duration (codes "1h30m") ≡ some (pos 5_400_000_000_000))
    × (parse_duration (codes "-1.5s") ≡ some (negated 1_500_000_000))
    × (parse_duration (codes "30") ≡ none)
    × (parse_duration (codes "2d") ≡ none)
    × (parse_duration (codes "0") ≡ some (pos 0))
    × (parse_duration (codes ".s") ≡ none)
    × (parse_duration (codes "9999999h") ≡ none)
unfolding parse_duration same_codes
duration_samples = (refl, refl, refl, refl, refl, refl, refl, refl)
