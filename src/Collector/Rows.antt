-- ===== src/Collector/Rows.antt =====
-- Incident rows: which are open, and their dates.
use cluster_recorder.Prelude.{
  ℕ, ◌+◌, ◌≤◌, ◌≡◌, refl, String, Bool, true, not, List, [], ◌∷◌, ◌++◌, some, arith, is_some,
  length, select, map, All, All-select, All-append,
}
use cluster_recorder.Prelude.Order.{nat_order}
use cluster_recorder.Sample.{Time}
use cluster_recorder.Store.Tables.{IncidentRow, ms}
use cluster_recorder.Store.Tables.Times.{ms_mono}
use cluster_recorder.Store.Incidents.{set_pods_row, close_row, overlaps}

-- `closed_ts IS NULL`
abbrev pub is_open : IncidentRow → Bool
is_open r = not (is_some r.closed_ts)

abbrev pub open_count : List IncidentRow → ℕ
open_count rs = length (select is_open rs)

-- The row was opened by then, and was not closed before it was opened.
abbrev pub Dated : ℕ → IncidentRow → Type 0
Dated at r = (r.opened_ts ≤ at) × ((c : ℕ) → r.closed_ts ≡ some c → r.opened_ts ≤ c)

-- At most one incident is open, and all rows are dated.
pub record Sound (at : Time) (rs : List IncidentRow) : Type 0 where
  pub single : open_count rs ≤ 1
  pub dated : All (Dated (ms at)) rs

Dated-later : (s t : ℕ) (rs : List IncidentRow) → s ≤ t → All (Dated s) rs → All (Dated t) rs
Dated-later s t [] h d = tt
Dated-later s t (r ∷ rs) h d = ((omega (arith, h, d.0.0), d.0.1), Dated-later s t rs h d.1)

pub Sound-later : (s t : Time) (rs : List IncidentRow) → s ≤ t → Sound s rs → Sound t rs
Sound-later s t rs h d = record {
  single = d.single;
  dated = Dated-later (ms s) (ms t) rs (ms_mono s t h) d.dated;
}

module _ (at : Time) (id : ℕ) where
  module _ (pods : List String) where
    count-set_pods :
        (rs : List IncidentRow) → open_count (map (set_pods_row id pods) rs) ≤ open_count rs
    unfolding set_pods_row
    count-set_pods [] = omega arith
    count-set_pods (r ∷ rs) = ground (arith, count-set_pods rs)

    set_pods-Dated : (r : IncidentRow) → Dated (ms at) r → Dated (ms at) (set_pods_row id pods r)
    unfolding set_pods_row
    set_pods-Dated r d = ground (arith, d)

  count-close : (rs : List IncidentRow) → open_count (map (close_row id at) rs) ≤ open_count rs
  unfolding close_row
  count-close [] = omega arith
  count-close (r ∷ rs) = ground (arith, count-close rs)

  close_row-Dated : (r : IncidentRow) → Dated (ms at) r → Dated (ms at) (close_row id at r)
  unfolding close_row
  close_row-Dated r d = ground (arith, d)

-- A filter on the rows.
count-select-le :
    (q : IncidentRow → Bool) (rs : List IncidentRow) → open_count (select q rs) ≤ open_count rs
count-select-le q [] = omega arith
count-select-le q (r ∷ rs) = ground (arith, count-select-le q rs)

count-append :
    (rs : List IncidentRow) (r : IncidentRow) → open_count (rs ++ r ∷ []) ≤ open_count rs + 1
count-append [] r = ground arith
count-append (x ∷ rs) r = ground (arith, count-append rs r)

All-map_rows :
    (P : IncidentRow → Type 0) (f : IncidentRow → IncidentRow) (rs : List IncidentRow)
    → ((r : IncidentRow) → P r → P (f r))
    → All P rs
    → All P (map f rs)
All-map_rows P f [] k h = tt
All-map_rows P f (r ∷ rs) k h = (k r h.0, All-map_rows P f rs k h.1)

module _ (at : Time) (rs : List IncidentRow) where
  pub Sound-set_pods :
      (id : ℕ) (pods : List String) → Sound at rs → Sound at (map (set_pods_row id pods) rs)
  Sound-set_pods id pods d = record {
    single = omega (arith, count-set_pods at id pods rs, d.single);
    dated =
        All-map_rows (Dated (ms at)) (set_pods_row id pods) rs (set_pods-Dated at id pods) d.dated;
  }

  pub Sound-close : (id : ℕ) → Sound at rs → Sound at (map (close_row id at) rs)
  Sound-close id d = record {
    single = omega (arith, count-close at id rs, d.single);
    dated = All-map_rows (Dated (ms at)) (close_row id at) rs (close_row-Dated at id) d.dated;
  }

  pub Sound-select : (q : IncidentRow → Bool) → Sound at rs → Sound at (select q rs)
  Sound-select q d = record {
    single = omega (arith, count-select-le q rs, d.single);
    dated = All-select (Dated (ms at)) q rs d.dated;
  }

  -- Another row may be opened when none is open.
  pub Sound-append :
      (r : IncidentRow)
      → Dated (ms at) r
      → open_count rs ≡ 0
      → Sound at rs
      → Sound at (rs ++ r ∷ [])
  Sound-append r dr none_open d = record {
    single = omega (arith, count-append rs r, none_open);
    dated = All-append (Dated (ms at)) rs (r ∷ []) d.dated (dr, tt);
  }

-- The evaluator's query finds every open row: the start of its range does not matter.
pub count-overlaps :
    (from at : Time) (rs : List IncidentRow)
    → All (Dated (ms at)) rs
    → length (select (overlaps from at true) rs) ≡ open_count rs
unfolding overlaps
count-overlaps from at [] d = refl
count-overlaps from at (r ∷ rs) d = ground (arith, count-overlaps from at rs d.1, d.0)
