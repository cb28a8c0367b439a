-- ===== src/Host/Proc.antt =====
-- internal/host/facts.go: what is read from the files below /proc. A file is its text, or the error that
-- reading it gave. The kernel writes no negative numbers; one would be taken for 0 here. The message of
-- a number that cannot be read leaves out the number.
pub mod Started
pub mod Memory
use cluster_recorder.Prelude.{
  ℕ, ◌+◌, ◌*◌, ◌/◌, String, ◌<>◌, Bool, true, false, ◌&&◌, Option, none, some, List, [], ◌∷◌, ◌==◌,
  if◌then◌else◌, is_some, get_elem?, show,
}
use cluster_recorder.Prelude.Numerals.{
  ℤ, pos_part, codes, Parsed, number, syntax, range, parse_int, accepted, value_of,
}
use cluster_recorder.Prelude.Fields.{
  Codes, lines, fields, cut_prefix, trim_space, same_codes, after_last,
}
use cluster_recorder.Dict.{Dict}
use cluster_recorder.Sample.{Field}
use cluster_recorder.Host as Host
use cluster_recorder.Host.{Read, got, failed, Reads}

-- A directory of /proc.
pub record Entry : Type 0 where
  pub name : Codes
  pub comm : Read Codes
  pub stat : Read Codes

-- The entries are in the order of `os.ReadDir`, which sorts by name.
pub record Proc : Type 0 where
  pub path : String
  pub stat : Read Codes
  pub meminfo : Read Codes
  pub entries : Read (List Entry)

-- A value with an error, as Go returns it.
abbrev pub Valued : Type 0
Valued = ℕ × Option String

parsed : Parsed ℤ → Valued
parsed (number z) = (pos_part z, none)
parsed syntax = (0, some "strconv.ParseInt: invalid syntax")
parsed (range z) = (pos_part z, some "strconv.ParseInt: value out of range")

btime_of : Option Codes → Valued → Valued
unfolding parsed
btime_of (some v) rest = parsed (parse_int (trim_space v))
btime_of none rest = rest

btime_in : String → List Codes → Valued
unfolding btime_of
btime_in path [] = (0, some ("no btime in " <> (path <> "/stat")))
btime_in path (l ∷ ls) =
    let rest = btime_in path ls in btime_of (cut_prefix (codes "btime ") l) rest

-- bootTime
unfoldable pub boot_time : String → Read Codes → Valued
unfolding btime_in
boot_time path (failed e) = (0, some e)
boot_time path (got s) = btime_in path (lines s)

ticks_per_second : ℕ
ticks_per_second = 100

started_at : ℕ → Parsed ℤ → Read (Option ℕ)
unfolding ticks_per_second
started_at btime (number ticks) = got (some (btime + pos_part ticks / ticks_per_second))
started_at btime syntax = failed "strconv.ParseInt: invalid syntax"
started_at btime (range ticks) = failed "strconv.ParseInt: value out of range"

start_field : ℕ → ℕ → Option Codes → Read (Option ℕ)
unfolding started_at
start_field btime pid none = failed ("pid " <> (show pid <> ": short stat"))
start_field btime pid (some f) = started_at btime (parse_int f)

-- Field 22 of the stat file, the twentieth behind the command's name.
unfoldable pub start_of : ℕ → ℕ → Read Codes → Read (Option ℕ)
unfolding start_field
start_of btime pid (failed e) = failed e
start_of btime pid (got s) = start_field btime pid (get_elem? (fields (after_last b')' s)) 19)

has_comm : Codes → Read Codes → Bool
has_comm comm (failed e) = false
has_comm comm (got s) = same_codes (trim_space s) comm

-- The entry is a process with this command's name.
unfoldable pub is_process : Codes → Entry → Bool
unfolding has_comm
is_process comm e = is_some (accepted (parse_int e.name)) && has_comm comm e.comm

-- The loop over the entries.
unfoldable pub first_start : Codes → ℕ → List Entry → Read (Option ℕ)
unfolding is_process
first_start comm btime [] = got none
first_start comm btime (e ∷ es) =
    let rest = first_start comm btime es in
    if is_process comm e
    then start_of btime (pos_part (value_of (parse_int e.name))) e.stat
    else rest

-- processStart
unfoldable pub process_start : Read (List Entry) → Codes → ℕ → Read (Option ℕ)
unfolding first_start
process_start (failed e) comm btime = failed e
process_start (got es) comm btime = first_start comm btime es

-- MemTotal and MemAvailable, of one line and of all.
unfoldable pub mem_line : List Codes → ℕ × ℕ → ℕ × ℕ
mem_line (key ∷ value ∷ _) (total, avail) =
    let n = pos_part (value_of (parse_int value)) in
    if same_codes key (codes "MemTotal:")
    then (n, avail)
    else if same_codes key (codes "MemAvailable:")
    then (total, n)
    else (total, avail)
mem_line _ found = found

unfoldable pub mem_lines : List Codes → ℕ × ℕ → ℕ × ℕ
unfolding mem_line
mem_lines [] found = found
mem_lines (l ∷ ls) found = mem_lines ls (mem_line (fields l) found)

unfoldable pub mem_pct : String → ℕ × ℕ → Read ℕ
mem_pct path (total, avail) =
    if total == 0
    then failed ("no MemTotal in " <> (path <> "/meminfo"))
    else got (avail * 100 / total)

-- memAvailablePct
unfoldable pub mem_available_pct : String → Read Codes → Read ℕ
unfolding mem_lines mem_pct
mem_available_pct path (failed e) = failed e
mem_available_pct path (got s) = mem_pct path (mem_lines (lines s) (0, 0))

read_of : Valued → Read ℕ
read_of (v, none) = got v
read_of (v, some e) = failed e

-- The reads of `Fields`, with what statfs gave. The boot time counts also where reading it failed.
unfoldable pub reads : Proc → Read ℕ → ℕ → Reads
unfolding boot_time process_start mem_available_pct read_of
reads p disk inodes =
    let btime = boot_time p.path p.stat in
    record {
      boot_time = read_of btime;
      kubelet = process_start p.entries (codes "kubelet") btime.0;
      containerd = process_start p.entries (codes "containerd") btime.0;
      mem_available_pct = mem_available_pct p.path p.meminfo;
      disk_used = disk;
      inodes_used = inodes;
    }
