-- ===== src/Api/Requests/Times.antt =====
-- The times in a query.
use cluster_recorder.Prelude.{
  ℕ, ◌+◌, ◌*◌, ◌≤◌, ◌≡◌, ◌≢◌, refl, ◌∙◌, true, false, some, [], ◌∷◌, arith, ltb, show, All, ◌==◌,
}
use cluster_recorder.Prelude.Numerals.{codes, is_digit, max_i64}
use cluster_recorder.Prelude.Show.Reading.{parse_int-show, show-All, codes-show-ne-nil}
use cluster_recorder.Prelude.Fields.{Codes}
use cluster_recorder.Prelude.Instants.{parse_rfc3339}
use cluster_recorder.Prelude.Instants.Digits.{parse_rfc3339-digits}
use cluster_recorder.Config.{second}
use cluster_recorder.Sample.{Time}
use cluster_recorder.Api.Requests.{unix_epoch, unix, absolute, time_in, parse_time}

-- A text of digits is no duration.
time_in-digits :
    (now : Time) (s : Codes)
    → s ≢ []
    → All (λ c. is_digit c ≡ true) s
    → time_in now s ≡ absolute s (parse_rfc3339 s)
unfolding time_in
time_in-digits now [] n h = absurd (n refl)
time_in-digits now (c ∷ s) n h = let other : (c == b'-') ≡ false = ground arith in rw other refl

-- Unix seconds for which `time.Unix` does not overflow are read back from their decimal print, whatever the time is.
pub parse_time-show :
    (n : ℕ) (now : Time)
    → unix_epoch + n ≤ max_i64
    → parse_time (show n) now ≡ some ((unix_epoch + n) * second)
unfolding parse_time absolute unix
parse_time-show n now fits =
    time_in-digits now (codes (show n)) (codes-show-ne-nil n) (show-All n)
    ∙ rw (parse_rfc3339-digits (codes (show n)) (show-All n)) (
        rw (parse_int-show n (omega (arith, fits)))
          (let small : ltb max_i64 (unix_epoch + n) ≡ false = ground arith in rw small refl))
