-- ===== src/Number/Interface.antt =====
-- The numbers that the program computes with: `Decimal` of the package decimal.js, and JavaScript's
-- `number`. Neither is code of the repository, so the type and its operations are parameters.
-- `decimal m k` is the literal m * 10^-k; `ceil_to x t` and `floor_to x t` are `toNearest` of
-- decimal.js, with ROUND_CEIL and ROUND_FLOOR; `whole x` is `x.floor().toNumber()` and
-- `nearest x` is `x.round().toNumber()` of a value that is not negative, and 0 of one that is.
use tera_trade.Prelude.{ℕ, ◌≡◌, ◌⊎◌, Bool, true, false, not, if◌then◌else◌, List, [], ◌∷◌}

pub record Number (D : Type 0) : Type 0 where
  pub lte_op : D → D → Bool
  pub plus_op : D → D → D
  pub minus_op : D → D → D
  pub times_op : D → D → D
  pub divided_by_op : D → D → D
  pub abs_op : D → D
  pub ceil_to_op : D → D → D
  pub floor_to_op : D → D → D
  pub whole_op : D → ℕ
  pub nearest_op : D → ℕ
  pub decimal_op : ℕ → ℕ → D

-- The methods, as the code calls them. The comparisons are those of numbers that are not NaN.
module _ {D : Type 0} ⦃n : Number D⦄ where
  abbrev pub lte : D → D → Bool
  lte = n.lte_op

  abbrev pub gte : D → D → Bool
  gte a b = n.lte_op b a

  abbrev pub lt : D → D → Bool
  lt a b = not (n.lte_op b a)

  abbrev pub gt : D → D → Bool
  gt a b = not (n.lte_op a b)

  abbrev pub plus : D → D → D
  plus = n.plus_op

  abbrev pub minus : D → D → D
  minus = n.minus_op

  abbrev pub times : D → D → D
  times = n.times_op

  abbrev pub divided_by : D → D → D
  divided_by = n.divided_by_op

  abbrev pub abs : D → D
  abs = n.abs_op

  abbrev pub ceil_to : D → D → D
  ceil_to = n.ceil_to_op

  abbrev pub floor_to : D → D → D
  floor_to = n.floor_to_op

  abbrev pub whole : D → ℕ
  whole = n.whole_op

  abbrev pub nearest : D → ℕ
  nearest = n.nearest_op

  abbrev pub decimal : ℕ → ℕ → D
  decimal = n.decimal_op

  abbrev pub of_nat : ℕ → D
  of_nat k = n.decimal_op k 0

  -- `Decimal.max`, `Decimal.min`, `Math.max` and `Math.min`, of two values.
  abbrev pub larger : D → D → D
  larger a b = if n.lte_op a b then b else a

  abbrev pub smaller : D → D → D
  smaller a b = if n.lte_op a b then a else b

  -- `Math.min(...xs)` and `Math.max(...xs)` of a list that is not empty.
  abbrev pub smallest : D → List D → D
  smallest a [] = a
  smallest a (x ∷ xs) = smallest (smaller a x) xs

  abbrev pub largest : D → List D → D
  largest a [] = a
  largest a (x ∷ xs) = largest (larger a x) xs

  infix 4 ◌≼◌ ◌≺◌
  abbrev pub ◌≼◌ : D → D → Type 0
  a ≼ b = n.lte_op a b ≡ true

  abbrev pub ◌≺◌ : D → D → Type 0
  a ≺ b = n.lte_op b a ≡ false

  abbrev pub IsNonneg : D → Type 0
  IsNonneg a = n.lte_op (n.decimal_op 0 0) a ≡ true

  abbrev pub IsPositive : D → Type 0
  IsPositive a = n.lte_op a (n.decimal_op 0 0) ≡ false

-- What correctly rounded arithmetic keeps of the order: the order is total, and every operation is
-- monotone. These hold of values that are not NaN, whether or not results are rounded.
pub record IsOrdered (D : Type 0) ⦃n : Number D⦄ : Type 0 where
  pub lte_total : (a b : D) → (a ≼ b) ⊎ (b ≼ a)
  pub lte_trans : (a b c : D) → a ≼ b → b ≼ c → a ≼ c
  pub le-plus : (a d : D) → IsNonneg d → a ≼ plus a d
  pub minus-le : (a d : D) → IsNonneg d → minus a d ≼ a
  pub times_nonneg : (a b : D) → IsNonneg a → IsNonneg b → IsNonneg (times a b)
  pub divided_by_nonneg : (a b : D) → IsNonneg a → IsPositive b → IsNonneg (divided_by a b)
  pub abs_nonneg : (a : D) → IsNonneg (abs a)
  pub le-ceil_to : (a t : D) → IsPositive t → a ≼ ceil_to a t
  pub floor_to-le : (a t : D) → IsPositive t → floor_to a t ≼ a
  pub decimal_nonneg : (m k : ℕ) → IsNonneg {D = D} (decimal m k)

-- What correctly rounded subtraction and multiplication keep of the order, argument by argument.
pub record IsMonotone (D : Type 0) ⦃n : Number D⦄ : Type 0 where
  pub minus_mono : (a b c : D) → a ≼ b → minus a c ≼ minus b c
  pub minus_anti : (a b c : D) → a ≼ b → minus c b ≼ minus c a
  pub times_mono : (a b c : D) → a ≼ b → IsNonneg c → times a c ≼ times b c
  pub times_anti : (a b c : D) → a ≼ b → c ≼ of_nat 0 → times b c ≼ times a c

-- What holds besides where no result of the code's additions and subtractions is rounded, as with
-- prices on a grid, whose digits are fewer than the twenty that decimal.js keeps.
pub record IsExact (D : Type 0) ⦃n : Number D⦄ : Type 0 where
  pub minus-plus-plus : (a b c : D) → minus (plus a c) (plus b c) ≡ minus a b
  pub lte-plus-plus : (a b c : D) → lte (plus a c) (plus b c) ≡ lte a b
  pub plus-minus_cancel : (a b : D) → plus a (minus b a) ≡ b
  pub plus_gt : (a d : D) → IsPositive d → a ≺ plus a d
  pub minus_lt : (a d : D) → IsPositive d → minus a d ≺ a
