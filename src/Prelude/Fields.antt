-- ===== src/Prelude/Fields.antt =====
-- Go's strings and bufio, on code points: lines, words and parts of a text.
pub mod Words
use Prim.Native.Nat.{ℕ}
use mathlib.Core.Path.{◌≡◌, refl, ap, ◌∙◌}
use mathlib.Core.Bool.{Bool, true, false, ◌&&◌, ◌||◌, not}
use mathlib.Core.Option.{Option, none, some}
use mathlib.Core.List.{List, [], ◌∷◌, ◌++◌}
use native.Mathlib.Omega.{arith}
use cluster_recorder.Prelude.Tests.{ltb, leb, ◌==◌, if◌then◌else◌}
use cluster_recorder.Prelude.Lists.{any, All, length}
use cluster_recorder.Prelude.Numerals.{codes}

abbrev pub Codes : Type 0
Codes = List ℕ

abbrev is_empty : Codes → Bool
is_empty [] = true
is_empty (c ∷ s) = false

-- unicode.IsSpace
unfoldable pub is_space : ℕ → Bool
is_space c =
    leb 9 c && leb c 13
    || c == 32
    || c == 0x85
    || c == 0xA0
    || c == 0x1680
    || leb 0x2000 c && leb c 0x200A
    || c == 0x2028
    || c == 0x2029
    || c == 0x202F
    || c == 0x205F
    || c == 0x3000

-- `s == t`
unfoldable pub same_codes : Codes → Codes → Bool
same_codes [] [] = true
same_codes (c ∷ s) (d ∷ t) = c == d && same_codes s t
same_codes _ _ = false

-- strings.CutPrefix; the prefix comes first here.
unfoldable pub cut_prefix : Codes → Codes → Option Codes
cut_prefix [] s = some s
cut_prefix (p ∷ ps) [] = none
cut_prefix (p ∷ ps) (c ∷ s) = let rest = cut_prefix ps s in if p == c then rest else none

unfoldable pub trim_left : Codes → Codes
unfolding is_space
trim_left [] = []
trim_left (c ∷ s) = let rest = trim_left s in if is_space c then rest else c ∷ s

unfoldable pub trim_right : Codes → Codes
unfolding is_space
trim_right [] = []
trim_right (c ∷ s) = let rest = trim_right s in if is_empty rest && is_space c then [] else c ∷ rest

-- strings.TrimSpace
unfoldable pub trim_space : Codes → Codes
unfolding trim_left trim_right
trim_space s = trim_right (trim_left s)

-- The word that the text begins with, and the words behind it.
close_word : Codes → List Codes → List Codes
close_word [] ws = ws
close_word (c ∷ w) ws = (c ∷ w) ∷ ws

unfoldable pub split_words : Codes → Codes × List Codes
unfolding close_word is_space
split_words [] = ([], [])
split_words (c ∷ s) =
    let (w, ws) = split_words s in if is_space c then ([], close_word w ws) else (c ∷ w, ws)

-- strings.Fields
unfoldable pub fields : Codes → List Codes
unfolding split_words
fields s = close_word (split_words s).0 (split_words s).1

add_to_line : ℕ → List Codes → List Codes
add_to_line c [] = (c ∷ []) ∷ []
add_to_line c (l ∷ ls) = (c ∷ l) ∷ ls

-- The lines of a file; a newline at its end begins none.
unfoldable pub raw_lines : Codes → List Codes
unfolding add_to_line
raw_lines [] = []
raw_lines (c ∷ s) = let rest = raw_lines s in if c == b'\n' then [] ∷ rest else add_to_line c rest

drop_cr : Codes → Codes
drop_cr [] = []
drop_cr (c ∷ s) = let rest = drop_cr s in if is_empty s && c == b'\r' then [] else c ∷ rest

-- What a bufio.Scanner gives: it stops at a line that does not fit its buffer.
unfoldable pub scanned : List Codes → List Codes
unfolding drop_cr
scanned [] = []
scanned (l ∷ ls) = let rest = scanned ls in if ltb (length l) 65_536 then drop_cr l ∷ rest else []

unfoldable pub lines : Codes → List Codes
unfolding raw_lines scanned
lines s = scanned (raw_lines s)

-- `s[strings.LastIndex(s, c)+1:]`
unfoldable pub after_last : ℕ → Codes → Codes
after_last c [] = []
after_last c (d ∷ s) =
    let rest = after_last c s in
    if any (λ (e : ℕ). e == c) s then rest else if d == c then s else d ∷ s

line_samples :
    (lines (codes "a b\r\n\nc") ≡ codes "a b" ∷ [] ∷ codes "c" ∷ [])
    × (fields (codes "  kB 12\t3 ") ≡ codes "kB" ∷ codes "12" ∷ codes "3" ∷ [])
    × (after_last b')' (codes "1 (a) b) S 2") ≡ codes " S 2")
    × (trim_space (codes " kubelet\n") ≡ codes "kubelet")
unfolding lines fields after_last trim_space
line_samples = (refl, refl, refl, refl)
