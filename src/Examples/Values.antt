-- ===== src/Examples/Values.antt =====
-- Concrete names, face URIs and doubles: the number n stands for the double n - 1.
use nlsr.Prelude.{Ord, Double, ltb, ℕ, ◌+◌, ◌-◌, ◌*◌, ◌≤◌, ◌≡◌, ap, true, false, arith}

pub nat_lt_irrefl : (a : ℕ) → ltb a a ≡ false
nat_lt_irrefl a = ground arith

pub nat_lt_trans : (a b c : ℕ) → ltb a b ≡ true → ltb b c ≡ true → ltb a c ≡ true
nat_lt_trans a b c h k = ground arith

pub nat_lt_total : (a b : ℕ) → ltb a b ≡ false → ltb b a ≡ false → a ≡ b
nat_lt_total a b h k = ground arith

instance abbrev pub nat_ord : Ord ℕ
nat_ord = record {
  lt = ltb;
  lt_irrefl = nat_lt_irrefl;
  lt_trans = nat_lt_trans;
  lt_total = nat_lt_total;
}

pub data Tenths : Type 0 where
  tenths : ℕ → Tenths

abbrev pub rank_of : Tenths → ℕ
rank_of (tenths n) = n

abbrev pub plus_tenths : Tenths → Tenths → Tenths
plus_tenths (tenths a) (tenths b) = tenths (a + b - 1)

pub rank_of-injective : (a b : Tenths) → rank_of a ≡ rank_of b → a ≡ b
rank_of-injective (tenths a) (tenths b) h = ap tenths h

pub plus_tenths_mono :
    (a b c : Tenths) → rank_of a ≤ rank_of b → rank_of (plus_tenths a c) ≤ rank_of (plus_tenths b c)
plus_tenths_mono (tenths a) (tenths b) (tenths c) h = omega arith

pub plus_tenths-grows : (a c : Tenths) → 1 ≤ rank_of c → rank_of a ≤ rank_of (plus_tenths a c)
plus_tenths-grows (tenths a) (tenths c) h = omega arith

instance abbrev pub tenths_double : Double Tenths
tenths_double = record {
  rank = rank_of;
  abs_difference = λ a b. tenths (rank_of a - rank_of b + (rank_of b - rank_of a) + 1);
  epsilon = tenths 2;
  rank_injective = rank_of-injective;
  zero_cost = tenths 1;
  default_link_cost = tenths 11;
  non_adjacent_cost = tenths 0;
  inf_distance = tenths 1000000;
  plus = plus_tenths;
  truncated = rank_of;
  thousandths = λ x. rank_of x * 1000;
  plus_mono = plus_tenths_mono;
  plus_grows = plus_tenths-grows;
  non_adjacent_neg = omega arith;
  default_pos = omega arith;
  inf_pos = omega arith;
}
