-- ===== src/Host/Proc/Started.antt =====
-- The start time of a process, from its stat file.
use cluster_recorder.Prelude.{
  ℕ, ◌+◌, ◌/◌, ◌≤◌, ◌≡◌, refl, ◌∙◌, true, false, some, List, [], ◌∷◌, ◌++◌, any, All, ◌==◌,
  get_elem?, show, ap, Bool-cases, inl, inr,
}
use cluster_recorder.Prelude.Numerals.{pos_part, codes, max_i64, parse_int, value_of}
use cluster_recorder.Prelude.Show.Reading.{parse_int-show}
use cluster_recorder.Prelude.Fields.{Codes}
use cluster_recorder.Prelude.Fields.Words.{
  IsWord, spaced, fields-spaced, after_last-append, any-spaced,
}
use cluster_recorder.Host.{got}
use cluster_recorder.Host.Proc.{Entry, is_process, start_of, first_start, process_start}

start_of_lem :
    (btime pid ticks : ℕ) (head : Codes) (ws : List Codes)
    → All IsWord ws
    → All (λ w. any (λ (e : ℕ). e == b')') w ≡ false) ws
    → get_elem? ws 19 ≡ some (codes (show ticks))
    → ticks ≤ max_i64
    → start_of btime pid (got (head ++ b')' ∷ spaced ws)) ≡ got (some (btime + ticks / 100))
unfolding start_of
start_of_lem btime pid ticks head ws words plain field fits =
    rw (after_last-append b')' head (spaced ws) (any-spaced b')' ws refl plain))
      (rw (fields-spaced ws words) (rw field (rw (parse_int-show ticks fits) refl)))

-- When all entries that are processes of a name are one entry, that one decides, wherever it stands.
first_start_lem :
    (comm : Codes) (btime : ℕ) (entries : List Entry) (e : Entry)
    → any (is_process comm) entries ≡ true
    → All (λ x. is_process comm x ≡ true → x ≡ e) entries
    → first_start comm btime entries
      ≡ start_of btime (pos_part (value_of (parse_int e.name))) e.stat
unfolding first_start
first_start_lem comm btime [] e some_one only = absurd (cc)
first_start_lem comm btime (x ∷ entries) e some_one only = elim (Bool-cases (is_process comm x)) [
  | inl this ↦ rw this (
      ap (λ (y : Entry). start_of btime (pos_part (value_of (parse_int y.name))) y.stat)
        (only.0 this))
  | inr other ↦ rw other (first_start_lem comm btime entries e (rw other at some_one) only.1)
]

-- When exactly one entry of /proc is a process of the name, in whichever order they are listed, its start
-- time is the boot time and the seconds of the twentieth word behind the last parenthesis of its stat
-- file, whatever the name in the parentheses is, spaces and parentheses included.
pub process_start_lem :
    (comm : Codes) (btime ticks : ℕ) (entries : List Entry) (e : Entry) (head : Codes)
    (ws : List Codes)
    → any (is_process comm) entries ≡ true
    → All (λ x. is_process comm x ≡ true → x ≡ e) entries
    → e.stat ≡ got (head ++ b')' ∷ spaced ws)
    → All IsWord ws
    → All (λ w. any (λ (e : ℕ). e == b')') w ≡ false) ws
    → get_elem? ws 19 ≡ some (codes (show ticks))
    → ticks ≤ max_i64
    → process_start (got entries) comm btime ≡ got (some (btime + ticks / 100))
unfolding process_start
process_start_lem comm btime ticks entries e head ws some_one only stat words plain field fits =
    first_start_lem comm btime entries e some_one only
    ∙ ap (start_of btime (pos_part (value_of (parse_int e.name)))) stat
    ∙ start_of_lem btime (pos_part (value_of (parse_int e.name))) ticks head ws words plain field
        fits
