-- ===== src/Number/Fixed.antt =====
-- Fixed-point numbers with four decimals, as integers that count ten-thousandths: the values at
-- which theorems about `Number` are applied. They meet its laws.
use tera_trade.Prelude.{ℕ, ◌+◌, ◌-◌, ◌*◌, ◌/◌, ◌^◌, ◌≤◌, suc, true, ◌≡◌, arith}
use tera_trade.Prelude.Int.{ℤ, pos, negsuc, pos_part, neg_part, sub_ℕ, ◌+ℤ◌, ◌-ℤ◌, leb_ℤ}
use tera_trade.Number.Interface.{Number, IsOrdered, IsExact, IsMonotone}

abbrev pub Fixed : Type 0
Fixed = ℤ

abbrev fixed_times : Fixed → Fixed → Fixed
fixed_times a b =
    sub_ℕ ((pos_part a * pos_part b + neg_part a * neg_part b) / 10_000)
      ((pos_part a * neg_part b + neg_part a * pos_part b) / 10_000)

abbrev fixed_divided_by : Fixed → Fixed → Fixed
fixed_divided_by a b =
    sub_ℕ (pos_part a * 10_000 / pos_part b + neg_part a * 10_000 / neg_part b)
      (pos_part a * 10_000 / neg_part b + neg_part a * 10_000 / pos_part b)

abbrev fixed_ceil_to : Fixed → Fixed → Fixed
fixed_ceil_to a t =
    sub_ℕ ((pos_part a + (pos_part t - 1)) / pos_part t * pos_part t)
      (neg_part a / pos_part t * pos_part t)

abbrev fixed_floor_to : Fixed → Fixed → Fixed
fixed_floor_to a t =
    sub_ℕ (pos_part a / pos_part t * pos_part t)
      ((neg_part a + (pos_part t - 1)) / pos_part t * pos_part t)

instance abbrev pub fixed_number : Number Fixed
fixed_number = record {
  lte_op = leb_ℤ;
  plus_op = ◌+ℤ◌;
  minus_op = ◌-ℤ◌;
  times_op = fixed_times;
  divided_by_op = fixed_divided_by;
  abs_op = λ a. pos (pos_part a + neg_part a);
  ceil_to_op = fixed_ceil_to;
  floor_to_op = fixed_floor_to;
  whole_op = λ a. pos_part a / 10_000;
  nearest_op = λ a. (pos_part a + 5000) / 10_000;
  decimal_op = λ m k. pos (m * 10_000 / 10 ^ k);
}

round_up : (p t : ℕ) → 1 ≤ t → p ≤ (p + (t - 1)) / t * t
round_up p t h = grind arith

round_down : (p t : ℕ) → p / t * t ≤ p
round_down p t = grind arith

pub Fixed-IsOrdered : IsOrdered Fixed
unfolding ◌+ℤ◌ ◌-ℤ◌
Fixed-IsOrdered = record {
  lte_total = λ a b. ground arith;
  lte_trans = λ a b c h k. ground arith;
  le-plus = λ a d h. ground arith;
  minus-le = λ a d h. ground arith;
  times_nonneg = λ a b h k. ground arith;
  divided_by_nonneg = λ a b h k. ground arith;
  abs_nonneg = λ a. ground arith;
  le-ceil_to = λ a t h.
      ground (arith, round_up (pos_part a) (pos_part t), round_down (neg_part a) (pos_part t));
  floor_to-le = λ a t h.
      ground (arith, round_up (neg_part a) (pos_part t), round_down (pos_part a) (pos_part t));
  decimal_nonneg = λ m k. ground arith;
}

pub Fixed-IsExact : IsExact Fixed
unfolding ◌+ℤ◌ ◌-ℤ◌
Fixed-IsExact = record {
  minus-plus-plus = λ a b c. ground arith;
  lte-plus-plus = λ a b c. ground arith;
  plus-minus_cancel = λ a b. ground arith;
  plus_gt = λ a d h. ground arith;
  minus_lt = λ a d h. ground arith;
}

-- The product is rounded towards zero.
scaled_mono : (a b c : ℕ) → a ≤ b → a * c / 10_000 ≤ b * c / 10_000
scaled_mono a b c h = grind arith

fixed_times_mono :
    (a b c : Fixed)
    → leb_ℤ a b ≡ true
    → leb_ℤ (pos 0) c ≡ true
    → leb_ℤ (fixed_times a c) (fixed_times b c) ≡ true
fixed_times_mono (pos a) (pos b) (pos c) h k = ground (arith, scaled_mono a b c)
fixed_times_mono (pos a) (negsuc b) (pos c) h k = ground arith
fixed_times_mono (negsuc a) (pos b) (pos c) h k = ground arith
fixed_times_mono (negsuc a) (negsuc b) (pos c) h k = ground (arith, scaled_mono (suc b) (suc a) c)
fixed_times_mono a b (negsuc c) h k = ground arith

fixed_times_anti :
    (a b c : Fixed)
    → leb_ℤ a b ≡ true
    → leb_ℤ c (pos 0) ≡ true
    → leb_ℤ (fixed_times b c) (fixed_times a c) ≡ true
fixed_times_anti a b (pos c) h k = ground arith
fixed_times_anti (pos a) (pos b) (negsuc c) h k = ground (arith, scaled_mono a b (suc c))
fixed_times_anti (pos a) (negsuc b) (negsuc c) h k = ground arith
fixed_times_anti (negsuc a) (pos b) (negsuc c) h k = ground arith
fixed_times_anti (negsuc a) (negsuc b) (negsuc c) h k =
    ground (arith, scaled_mono (suc b) (suc a) (suc c))

pub Fixed-IsMonotone : IsMonotone Fixed
unfolding ◌-ℤ◌
Fixed-IsMonotone = record {
  minus_mono = λ a b c h. ground arith;
  minus_anti = λ a b c h. ground arith;
  times_mono = fixed_times_mono;
  times_anti = fixed_times_anti;
}
