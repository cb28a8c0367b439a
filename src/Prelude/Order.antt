-- ===== src/Prelude/Order.antt =====
-- Orders by a Boolean `<`, as the program's `less` functions give them, with an equality test.
use Prim.Native.Nat.{ℕ}
use Prim.Native.String.{String}
use mathlib.Core.Path.{◌≡◌}
use mathlib.Core.Logic.{◌↔◌}
use mathlib.Core.Bool.{Bool, true, false, ◌&&◌, ◌||◌}
use native.Mathlib.Omega.{arith}
use cluster_recorder.Prelude.Tests.{ltb, ◌==◌}
use cluster_recorder.Prelude.Text.{
  text_lt, str_eq, eq_iff, text_lt_irrefl, text_lt_trans, text_lt_total,
}

pub record Order {ℓ} (K : Type ℓ) : Type ℓ where
  pub lt : K → K → Bool
  pub eq : K → K → Bool
  pub eq_iff : (a b : K) → (eq a b ≡ true) ↔ (a ≡ b)
  pub irrefl : (a : K) → lt a a ≡ false
  pub trans : (a b c : K) → lt a b ≡ true → lt b c ≡ true → lt a c ≡ true
  pub total : (a b : K) → lt a b ≡ false → lt b a ≡ false → a ≡ b

pub ltb_irrefl : (a : ℕ) → ltb a a ≡ false
ltb_irrefl a = ground arith

pub ltb_trans : (a b c : ℕ) → ltb a b ≡ true → ltb b c ≡ true → ltb a c ≡ true
ltb_trans a b c p q = ground arith

pub ltb_total : (a b : ℕ) → ltb a b ≡ false → ltb b a ≡ false → a ≡ b
ltb_total a b p q = ground arith

pub ==_iff : (a b : ℕ) → ((a == b) ≡ true) ↔ (a ≡ b)
==_iff a b = ground arith

instance abbrev pub text_order : Order String
text_order = record {
  lt = text_lt;
  eq = str_eq;
  eq_iff = eq_iff;
  irrefl = text_lt_irrefl;
  trans = text_lt_trans;
  total = text_lt_total;
}

instance abbrev pub nat_order : Order ℕ
nat_order = record {
  lt = ltb;
  eq = ◌==◌;
  eq_iff = ==_iff;
  irrefl = ltb_irrefl;
  trans = ltb_trans;
  total = ltb_total;
}

-- The order of pairs by the first number, then by the second: `ORDER BY ts, id`.
unfoldable pub pair_lt : ℕ × ℕ → ℕ × ℕ → Bool
pair_lt (a, i) (b, j) = ltb a b || (a == b && ltb i j)

unfoldable pub pair_eq : ℕ × ℕ → ℕ × ℕ → Bool
pair_eq (a, i) (b, j) = a == b && i == j

pub pair_eq_iff : (p q : ℕ × ℕ) → (pair_eq p q ≡ true) ↔ (p ≡ q)
unfolding pair_eq
pair_eq_iff (a, i) (b, j) = ground arith

pub pair_irrefl : (p : ℕ × ℕ) → pair_lt p p ≡ false
unfolding pair_lt
pair_irrefl (a, i) = ground arith

pub pair_trans : (p q r : ℕ × ℕ) → pair_lt p q ≡ true → pair_lt q r ≡ true → pair_lt p r ≡ true
unfolding pair_lt
pair_trans (a, i) (b, j) (c, k) = ground arith

pub pair_total : (p q : ℕ × ℕ) → pair_lt p q ≡ false → pair_lt q p ≡ false → p ≡ q
unfolding pair_lt
pair_total (a, i) (b, j) = ground arith

instance abbrev pub pair_order : Order (ℕ × ℕ)
pair_order = record {
  lt = pair_lt;
  eq = pair_eq;
  eq_iff = pair_eq_iff;
  irrefl = pair_irrefl;
  trans = pair_trans;
  total = pair_total;
}

-- DESC
abbrev pub descending {ℓ} : {K : Type ℓ} → Order K → Order K
descending o = record {
  lt = λ a b. o.lt b a;
  eq = o.eq;
  eq_iff = o.eq_iff;
  irrefl = o.irrefl;
  trans = λ a b c p q. o.trans c b a q p;
  total = λ a b p q. o.total a b q p;
}
