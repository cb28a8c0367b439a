-- ===== src/Prelude/Show/Reading.antt =====
-- A number that was printed is read back.
use Prim.Native.Nat.{ℕ, zero, suc, ◌+◌, ◌/◌, ◌%◌, ◌≤◌, ◌<◌}
use Prim.Native.Char.{code}
use Prim.Native.String.{String, ◌++◌ as ◌<>◌}
use mathlib.Core.Path.{◌≡◌, refl, ap, ◌∙◌, sym}
use mathlib.Core.Logic.{inl, inr, ◌≢◌}
use mathlib.Core.Bool.{true}
use mathlib.Core.List.{List, [], ◌∷◌, ◌++◌, append_assoc, append-nil}
use native.Mathlib.Omega.{arith}
use text.Mathlib.TextLemmas.{nil-append, cons-append}
use cluster_recorder.Prelude.Tests.{ltb, if◌then◌else◌, Bool-cases}
use cluster_recorder.Prelude.Lists.{All, All-append}
use cluster_recorder.Prelude.Show.{show, show_from, digits, digit_at}
use cluster_recorder.Prelude.Numerals.{
  pos, codes, is_digit, max_u64, max_i64, number, scan_uint, parse_uint, parse_int,
}

pub codes-append : (s t : String) → codes (s <> t) ≡ codes s ++ codes t
codes-append String.[] t = ap codes (nil-append t)
codes-append (String.◌∷◌ c s) t =
    ap codes (cons-append c s t) ∙ ap (λ cs. code c ∷ cs) (codes-append s t)

codes-digit_at : (n : ℕ) → n < 10 → codes (digit_at digits n) ≡ (b'0' + n) ∷ []
unfolding digit_at
codes-digit_at zero h = refl
codes-digit_at (suc zero) h = refl
codes-digit_at (suc (suc zero)) h = refl
codes-digit_at (suc (suc (suc zero))) h = refl
codes-digit_at (suc (suc (suc (suc zero)))) h = refl
codes-digit_at (suc (suc (suc (suc (suc zero))))) h = refl
codes-digit_at (suc (suc (suc (suc (suc (suc zero)))))) h = refl
codes-digit_at (suc (suc (suc (suc (suc (suc (suc zero))))))) h = refl
codes-digit_at (suc (suc (suc (suc (suc (suc (suc (suc zero)))))))) h = refl
codes-digit_at (suc (suc (suc (suc (suc (suc (suc (suc (suc zero))))))))) h = refl
codes-digit_at (suc (suc (suc (suc (suc (suc (suc (suc (suc (suc n)))))))))) h =
    absurd (omega arith)

scan_last :
    (n : ℕ) (s : List ℕ) → n ≤ max_u64 → scan_uint ((b'0' + n % 10) ∷ s) (n / 10) ≡ scan_uint s n
unfolding scan_uint
scan_last n s h = ground arith

-- Reading what was printed, and then what follows.
scan-show_from :
    (fuel n : ℕ) (s : List ℕ)
    → n < fuel
    → n ≤ max_u64
    → scan_uint (codes (show_from fuel n) ++ s) 0 ≡ scan_uint s n
unfolding show_from
scan-show_from zero n s h fits = absurd (omega arith)
scan-show_from (suc fuel) n s h fits = elim (Bool-cases (ltb n 10)) [
  | inl small ↦
      let e : codes ("" <> digit_at digits (n % 10)) ≡ (b'0' + n % 10) ∷ [] =
        codes-append "" (digit_at digits (n % 10)) ∙ codes-digit_at (n % 10) (omega arith) in
      let z : n / 10 ≡ 0 = ground arith in
      rw small (rw e (ap (scan_uint ((b'0' + n % 10) ∷ s)) (sym z) ∙ scan_last n s fits))
  | inr large ↦
      let rest = show_from fuel (n / 10) in
      let e : codes (rest <> digit_at digits (n % 10)) ≡ codes rest ++ (b'0' + n % 10) ∷ [] =
        codes-append rest (digit_at digits (n % 10))
        ∙ ap (λ cs. codes rest ++ cs) (codes-digit_at (n % 10) (omega arith)) in
      rw large (
        rw e (
          ap (λ cs. scan_uint cs 0) (append_assoc (codes rest) ((b'0' + n % 10) ∷ []) s)
          ∙ scan-show_from fuel (n / 10) ((b'0' + n % 10) ∷ s) (ground arith) (omega arith)
          ∙ scan_last n s fits))
]

-- The digits of a number.
show_from-All : (fuel n : ℕ) → All (λ c. is_digit c ≡ true) (codes (show_from fuel n))
unfolding show_from
show_from-All zero n = tt
show_from-All (suc fuel) n =
    let rest = show_from fuel (n / 10) in
    let d = digit_at digits (n % 10) in
    let last : All (λ c. is_digit c ≡ true) (codes d) =
      rw (codes-digit_at (n % 10) (omega arith)) (ground arith, tt) in
    elim (Bool-cases (ltb n 10)) [
      | inl small ↦ rw (small) (rw (codes-append "" d) last)
      | inr large ↦ rw (large) (
          rw (codes-append rest d) (
            All-append (λ c. is_digit c ≡ true) (codes rest) (codes d) (show_from-All fuel (n / 10))
              last))
    ]

append_last-ne-nil : (xs : List ℕ) (d : ℕ) → (xs ++ d ∷ []) ≢ []
append_last-ne-nil [] d e = cc
append_last-ne-nil (x ∷ xs) d e = cc

pub codes-show-ne-nil : (n : ℕ) → codes (show n) ≢ []
unfolding show show_from
codes-show-ne-nil n e =
    let before = if ltb n 10 then "" else show_from n (n / 10) in
    append_last-ne-nil (codes before) (b'0' + n % 10) (
      sym (ap (λ cs. codes before ++ cs) (codes-digit_at (n % 10) (omega arith)))
      ∙ sym (codes-append before (digit_at digits (n % 10)))
      ∙ e)

parse_uint-scan : (s : List ℕ) → s ≢ [] → parse_uint s ≡ scan_uint s 0
unfolding parse_uint
parse_uint-scan [] h = absurd (h refl)
parse_uint-scan (c ∷ s) h = refl

pub parse_uint-show : (n : ℕ) → n ≤ max_u64 → parse_uint (codes (show n)) ≡ number n
unfolding show
parse_uint-show n fits =
    parse_uint-scan (codes (show n)) (codes-show-ne-nil n)
    ∙ ap (λ cs. scan_uint cs 0) (sym (append-nil (codes (show n))))
    ∙ scan-show_from (suc n) n [] (omega arith) fits
    ∙ unfold scan_uint in refl

-- Without a sign `ParseInt` reads as `ParseUint` does.
parse_int_unsigned :
    (s : List ℕ) (n : ℕ)
    → All (λ c. is_digit c ≡ true) s
    → parse_uint s ≡ number n
    → n ≤ max_i64
    → parse_int s ≡ number (pos n)
unfolding parse_int
parse_int_unsigned [] n d e fits = ground arith
parse_int_unsigned (c ∷ s) n d e fits = ground arith

-- Every int64 that is not negative is read back from its decimal print.
pub parse_int-show : (n : ℕ) → n ≤ max_i64 → parse_int (codes (show n)) ≡ number (pos n)
unfolding show
parse_int-show n fits =
    parse_int_unsigned (codes (show n)) n (show_from-All (suc n) n)
      (parse_uint-show n (omega arith)) fits

pub show-All : (n : ℕ) → All (λ c. is_digit c ≡ true) (codes (show n))
unfolding show
show-All n = show_from-All (suc n) n
