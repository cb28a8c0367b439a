-- ===== src/Prelude/Durations/Fuel.antt =====
-- Every round of `ParseDuration` reads at least one character, so that its fuel is enough.
use Prim.Native.Nat.{ℕ, zero, suc, ◌+◌, ◌*◌, ◌-◌, ◌/◌, ◌<◌, ◌≤◌}
use mathlib.Core.Logic.{inl, inr}
use mathlib.Core.Bool.{Bool, false, ◌||◌, ◌&&◌}
use mathlib.Core.Path.{◌≡◌, refl, ap}
use mathlib.Core.Option.{Option, none, some}
use mathlib.Core.List.{[], ◌∷◌}
use native.Mathlib.Omega.{arith}
use cluster_recorder.Prelude.Tests.{if◌then◌else◌, ltb, leb, Bool-cases}
use cluster_recorder.Prelude.Numerals.{is_digit, max_i64}
use cluster_recorder.Prelude.Lists.{length}
use cluster_recorder.Prelude.Fields.{Codes, same_codes}
use cluster_recorder.Prelude.Durations.{
  limit, begins_number, has_digits, in_units, after_int, leading_int, leading_fraction, fraction_of,
  take_unit, unit_of, one_part, sum_parts,
}

-- What is left is not longer.
abbrev Leaves : Codes → Option (ℕ × Codes) → Type 0
Leaves s none = Unit
Leaves s (some (v, rest)) = length rest ≤ length s

leading_int-Leaves : (s : Codes) (x : ℕ) → Leaves s (leading_int s x)
unfolding leading_int
leading_int-Leaves [] x = omega arith
leading_int-Leaves (c ∷ s) x = ground (arith, leading_int-Leaves s (x * 10 + (c - b'0')))

leading_fraction-le :
    (s : Codes) (x scale : ℕ) (over : Bool) → length (leading_fraction s x scale over).2 ≤ length s
unfolding leading_fraction
leading_fraction-le [] x scale over = omega arith
leading_fraction-le (c ∷ s) x scale over =
    let y = x * 10 + (c - b'0') in
    let lost = over || ltb (max_i64 / 10) x || ltb limit y in
    let ih =
      leading_fraction-le s (if lost then x else y) (if lost then scale else scale * 10) lost in
    elim (Bool-cases (is_digit c)) [
      | inl digit ↦ rw digit (omega (arith, ih))
      | inr other ↦ rw other (omega arith)
    ]

fraction_of-le : (s : Codes) → length (fraction_of s).2 ≤ length s
unfolding fraction_of
fraction_of-le [] = omega arith
fraction_of-le (c ∷ s) = ground (arith, leading_fraction-le s 0 1 false)

take_unit-length : (s : Codes) → length (take_unit s).0 + length (take_unit s).1 ≡ length s
unfolding take_unit
take_unit-length [] = omega arith
take_unit-length (c ∷ s) = ground (arith, take_unit-length s)

unit_of-nonempty : (u : Codes) (unit : ℕ) → unit_of u ≡ some unit → 0 < length u
unfolding unit_of same_codes
unit_of-nonempty [] unit e = ground arith
unit_of-nonempty (c ∷ u) unit e = omega arith

abbrev Shortens : Codes → Option (ℕ × Codes) → Type 0
Shortens s none = Unit
Shortens s (some (v, rest)) = length rest < length s

in_units-Shortens :
    (s : Codes) (v f scale : ℕ) (rest : Codes) (o : Option ℕ)
    → ((unit : ℕ) → o ≡ some unit → length rest < length s)
    → Shortens s (in_units v f scale rest o)
unfolding in_units
in_units-Shortens s v f scale rest none h = tt
in_units-Shortens s v f scale rest (some unit) h =
    let ns = v * unit + f * unit / scale in
    elim (Bool-cases (leb v (limit / unit) && leb ns limit)) [
      | inl fits ↦ rw fits (h unit refl)
      | inr large ↦ rw large tt
    ]

after_int-Shortens : (s : Codes) (o : Option (ℕ × Codes)) → Leaves s o → Shortens s (after_int s o)
unfolding after_int
after_int-Shortens s none h = tt
after_int-Shortens s (some (v, s1)) h =
    let s2 = (fraction_of s1).2 in
    elim (Bool-cases (has_digits s s1 s2)) [
      | inl some_digit ↦ rw some_digit (
          in_units-Shortens s v (fraction_of s1).0 (fraction_of s1).1 (take_unit s2).1
            (unit_of (take_unit s2).0)
            λ unit e. omega (
              arith,
              h,
              fraction_of-le s1,
              take_unit-length s2,
              unit_of-nonempty (take_unit s2).0 unit e,
            ))
      | inr no_digit ↦ rw no_digit tt
    ]

one_part-Shortens : (s : Codes) → Shortens s (one_part s)
unfolding one_part
one_part-Shortens s = elim (Bool-cases (begins_number s)) [
  | inl begins ↦ rw begins (after_int-Shortens s (leading_int s 0) (leading_int-Leaves s 0))
  | inr other ↦ rw other tt
]

-- One round, where the rest of the loop makes no difference.
abbrev round : (Codes → ℕ → Option ℕ) → ℕ → Option (ℕ × Codes) → Option ℕ
round more d o = elim o [
  | none ↦ none
  | some (v, rest) ↦ let sum = more rest (d + v) in if ltb limit (d + v) then none else sum
]

round_same :
    (m n : Codes → ℕ → Option ℕ) (s : Codes) (d : ℕ) (o : Option (ℕ × Codes))
    → ((rest : Codes) (e : ℕ) → length rest < length s → m rest e ≡ n rest e)
    → Shortens s o
    → round m d o ≡ round n d o
round_same m n s d none same h = refl
round_same m n s d (some (v, rest)) same h =
    ap (λ more. if ltb limit (d + v) then none else more) (same rest (d + v) h)

-- More fuel than there are characters makes no difference.
pub sum_parts_enough :
    (f g : ℕ) (s : Codes) (d : ℕ) → length s < f → length s < g → sum_parts f s d ≡ sum_parts g s d
unfolding sum_parts
sum_parts_enough zero g s d hf hg = absurd (omega arith)
sum_parts_enough (suc f) zero s d hf hg = absurd (omega arith)
sum_parts_enough (suc f) (suc g) [] d hf hg = refl
sum_parts_enough (suc f) (suc g) (c ∷ s) d hf hg =
    round_same (sum_parts f) (sum_parts g) (c ∷ s) d (one_part (c ∷ s))
      (λ rest e h. sum_parts_enough f g rest e (omega arith) (omega arith))
      (one_part-Shortens (c ∷ s))
