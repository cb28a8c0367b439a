-- ===== src/Prelude/Instants.antt =====
-- Go's `time.Parse` with the layout of RFC 3339: what it accepts, one digit for the hour and a comma before
-- the fraction included. An instant is the number of nanoseconds since Go's zero time; years before
-- the first are taken for it.
pub mod Digits
use Prim.Native.Nat.{ℕ, zero, suc, ◌+◌, ◌-◌, ◌*◌, ◌/◌, ◌%◌}
use mathlib.Core.Path.{◌≡◌, refl}
use mathlib.Core.Bool.{Bool, true, false, ◌&&◌, ◌||◌, not}
use mathlib.Core.Option.{Option, none, some}
use mathlib.Core.List.{List, [], ◌∷◌}
use cluster_recorder.Prelude.Tests.{ltb, leb, ◌==◌, if◌then◌else◌}
use cluster_recorder.Prelude.Numerals.{codes, is_digit}
use cluster_recorder.Prelude.Fields.{Codes}

infixl 5 ◌>>=◌ ◌>>◌
abbrev ◌>>=◌ : {A B : Type 0} → Option A → (A → Option B) → Option B
none >>= f = none
some a >>= f = f a

abbrev ◌>>◌ : {B : Type 0} → Option (Unit {0}) → Option B → Option B
m >> k = m >>= λ _. k

abbrev guard : Bool → Option (Unit {0})
guard true = some tt
guard false = none

digit : Codes → Option (ℕ × Codes)
digit [] = none
digit (c ∷ s) = if is_digit c then some (c - b'0', s) else none

two_digits : Codes → Option (ℕ × Codes)
unfolding digit
two_digits s = do (a, s) ← digit s; (b, s) ← digit s; some (a * 10 + b, s)

four_digits : Codes → Option (ℕ × Codes)
unfolding two_digits
four_digits s = do (a, s) ← two_digits s; (b, s) ← two_digits s; some (a * 100 + b, s)

second_digit : ℕ → Codes → Option (ℕ × Codes) → Option (ℕ × Codes)
second_digit a s none = some (a, s)
second_digit a s (some (b, rest)) = some (a * 10 + b, rest)

one_or_two_digits : Codes → Option (ℕ × Codes)
unfolding digit second_digit
one_or_two_digits s = do (a, s) ← digit s; second_digit a s (digit s)

expect : ℕ → Codes → Option Codes
expect c [] = none
expect c (d ∷ s) = if d == c then some s else none

-- Up to nine digits count; further ones are read and dropped.
nanoseconds : ℕ → Codes → ℕ × Codes
nanoseconds place [] = (0, [])
nanoseconds place (c ∷ s) =
    let (n, rest) = nanoseconds (place / 10) s in
    if is_digit c then ((c - b'0') * place + n, rest) else (0, c ∷ s)

fraction : Codes → ℕ × Codes
unfolding nanoseconds
fraction (p ∷ c ∷ s) =
    if (p == b'.' || p == b',') && is_digit c
    then nanoseconds 100_000_000 (c ∷ s)
    else (0, p ∷ c ∷ s)
fraction s = (0, s)

is_leap : ℕ → Bool
is_leap y = y % 4 == 0 && (not (y % 100 == 0) || y % 400 == 0)

days_in : ℕ → ℕ → ℕ
unfolding is_leap
days_in m y =
    if m == 2
    then (if is_leap y then 29 else 28)
    else if m == 4 || m == 6 || m == 9 || m == 11
    then 30
    else 31

days_before : ℕ → ℕ → ℕ
unfolding days_in
days_before zero y = 0
days_before (suc m) y = days_before m y + (if m == 0 then 0 else days_in m y)

-- The days from the first of January of year 1.
day_number : ℕ → ℕ → ℕ → ℕ
unfolding days_before
day_number y m d = let z = y - 1 in z * 365 + z / 4 - z / 100 + z / 400 + days_before m y + (d - 1)

-- An offset as seconds before and behind UTC.
zone_offset : Bool → ℕ → ℕ × ℕ
zone_offset true s = (0, s)
zone_offset false s = (s, 0)

numeric_zone : Bool → Codes → Option ((ℕ × ℕ) × Codes)
unfolding two_digits expect zone_offset
numeric_zone east s = do
  (hh, s) ← two_digits s
  s ← expect b':' s
  (mm, s) ← two_digits s
  guard (leb hh 24 && leb mm 60)
  some (zone_offset east ((hh * 60 + mm) * 60), s)

zone : Codes → Option ((ℕ × ℕ) × Codes)
unfolding numeric_zone
zone [] = none
zone (c ∷ s) =
    if c == b'Z'
    then some ((0, 0), s)
    else if c == b'+'
    then numeric_zone true s
    else if c == b'-'
    then numeric_zone false s
    else none

at_end : Codes → Bool
at_end [] = true
at_end (c ∷ s) = false

unfoldable pub parse_rfc3339 : Codes → Option ℕ
unfolding four_digits two_digits one_or_two_digits expect fraction zone day_number at_end
parse_rfc3339 s = do
  (y, s) ← four_digits s
  s ← expect b'-' s
  (m, s) ← two_digits s
  guard (leb 1 m && leb m 12)
  s ← expect b'-' s
  (d, s) ← two_digits s
  s ← expect b'T' s
  (hh, s) ← one_or_two_digits s
  guard (ltb hh 24)
  s ← expect b':' s
  (mi, s) ← two_digits s
  guard (ltb mi 60)
  s ← expect b':' s
  (sec, s) ← two_digits s
  guard (ltb sec 60)
  let (ns, s) = fraction s
  ((behind, before), s) ← zone s
  guard (at_end s && leb 1 d && leb d (days_in m y))
  let local_time = ((day_number y m d * 24 + hh) * 60 + mi) * 60 + sec
  some (if y == 0 then 0 else (local_time + behind - before) * 1_000_000_000 + ns)

instant_samples :
    (parse_rfc3339 (codes "0001-01-01T00:00:00Z") ≡ some 0)
    × (parse_rfc3339 (codes "1970-01-01T00:00:00Z") ≡ some 62_135_596_800_000_000_000)
    × (parse_rfc3339 (codes "2024-02-29T23:59:59.5+02:00") ≡ some 63_844_840_799_500_000_000)
    × (parse_rfc3339 (codes "2023-02-29T00:00:00Z") ≡ none)
    × (parse_rfc3339 (codes "1700000000") ≡ none)
unfolding parse_rfc3339
instant_samples = (refl, refl, refl, refl, refl)
