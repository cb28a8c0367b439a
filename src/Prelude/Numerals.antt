-- ===== src/Prelude/Numerals.antt =====
-- Go's strconv: signed numbers, and `ParseInt` in base 10 and 64 bits, which `Atoi` is too. It gives a
-- value also where it reports that the number is out of range.
use Prim.Native.Nat.{ℕ, zero, suc, ◌+◌, ◌-◌, ◌*◌, ◌^◌}
use Prim.Native.Char.{code}
use Prim.Native.String.{String}
use mathlib.Core.Path.{◌≡◌, refl}
use mathlib.Core.Bool.{Bool, true, false, ◌&&◌}
use mathlib.Core.Option.{Option, none, some}
use mathlib.Core.List.{List, [], ◌∷◌}
use cluster_recorder.Prelude.Tests.{ltb, leb, ◌==◌, if◌then◌else◌}

-- `negsuc n` is -(n + 1).
pub data ℤ : Type 0 where
  pos : ℕ → ℤ
  negsuc : ℕ → ℤ

-- The number, or 0 if it is negative.
abbrev pub pos_part : ℤ → ℕ
pos_part (pos n) = n
pos_part (negsuc n) = 0

abbrev pub neg_part : ℤ → ℕ
neg_part (pos n) = 0
neg_part (negsuc n) = suc n

abbrev pub negated : ℕ → ℤ
negated zero = pos 0
negated (suc n) = negsuc n

-- The code points of a text: its bytes, if it is ASCII.
abbrev pub codes : String → List ℕ
codes String.[] = []
codes (String.◌∷◌ c s) = code c ∷ codes s

abbrev pub is_digit : ℕ → Bool
is_digit c = leb b'0' c && leb c b'9'

abbrev pub max_u64 : ℕ
max_u64 = 2 ^ 64 - 1

abbrev pub max_i64 : ℕ
max_i64 = 2 ^ 63 - 1

pub data Parsed (A : Type 0) : Type 0 where
  number : A → Parsed A
  syntax : Parsed A
  range : A → Parsed A

-- The loop of `ParseUint`.
unfoldable pub scan_uint : List ℕ → ℕ → Parsed ℕ
scan_uint [] n = number n
scan_uint (c ∷ s) n =
    let m = n * 10 + (c - b'0') in
    let rest = scan_uint s m in
    if is_digit c then if ltb max_u64 m then range max_u64 else rest else syntax

unfoldable pub parse_uint : List ℕ → Parsed ℕ
unfolding scan_uint
parse_uint [] = syntax
parse_uint (c ∷ s) = scan_uint (c ∷ s) 0

with_sign : Bool → Parsed ℕ → Parsed ℤ
with_sign neg syntax = syntax
with_sign true (number n) =
    if leb n (max_i64 + 1) then number (negated n) else range (negsuc max_i64)
with_sign true (range n) = range (negsuc max_i64)
with_sign false (number n) = if leb n max_i64 then number (pos n) else range (pos max_i64)
with_sign false (range n) = range (pos max_i64)

unfoldable pub parse_int : List ℕ → Parsed ℤ
unfolding parse_uint with_sign
parse_int [] = syntax
parse_int (c ∷ s) =
    if c == b'-'
    then with_sign true (parse_uint s)
    else if c == b'+'
    then with_sign false (parse_uint s)
    else with_sign false (parse_uint (c ∷ s))

-- `n, err := ParseInt(s)`, where an error stops.
abbrev pub accepted : {A : Type 0} → Parsed A → Option A
accepted (number a) = some a
accepted syntax = none
accepted (range a) = none

-- `n, _ := ParseInt(s)`
abbrev pub value_of : Parsed ℤ → ℤ
value_of (number a) = a
value_of syntax = pos 0
value_of (range a) = a

parse_samples :
    (parse_int (codes "0042") ≡ number (pos 42))
    × (parse_int (codes "-7") ≡ number (negsuc 6))
    × (parse_int (codes "+7") ≡ number (pos 7))
    × (parse_int (codes "7m") ≡ syntax)
    × (parse_int (codes "9223372036854775808") ≡ range (pos max_i64))
    × (parse_int (codes "-9223372036854775808") ≡ number (negsuc max_i64))
unfolding parse_int
parse_samples = (refl, refl, refl, refl, refl, refl)
