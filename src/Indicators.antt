-- ===== src/Indicators.antt =====
-- backend/src/regime/indicators.ts: the average true range. An entry that is NaN, where there is not
-- enough history yet, is `none`.
use tera_trade.Prelude.{
  ℕ, ◌/◌, max, ltb, if◌then◌else◌, Option, none, some, get_or, List, [], ◌∷◌, ◌++◌, length, take,
  get_elem?,
}
use tera_trade.Number.{Number, lte, plus, minus, times, divided_by, abs, of_nat, larger, smaller}
use tera_trade.Market.{OhlcBar}

-- TRUE_RANGE_OUTLIER_CLIP_MULTIPLE and TRUE_RANGE_OUTLIER_CLIP_WINDOW
abbrev pub clip_multiple : ℕ
clip_multiple = 10

abbrev pub clip_window : ℕ
clip_window = 14

module _ {D : Type 0} ⦃n : Number D⦄ where
  pub insert_number : D → List D → List D
  insert_number x [] = x ∷ []
  insert_number x (y ∷ ys) = if lte x y then x ∷ y ∷ ys else y ∷ insert_number x ys

  -- `[...xs].sort((a, b) => a - b)`
  pub sort_numbers : List D → List D
  sort_numbers [] = []
  sort_numbers (x ∷ xs) = insert_number x (sort_numbers xs)

  -- One value of `raw`, with the window of the values before it.
  pub clip_value : List D → D → D
  unfolding sort_numbers insert_number
  clip_value reference value =
      let sorted = sort_numbers reference in
      let median = get_or (get_elem? sorted (length sorted / 2)) (of_nat 0) in
      if ltb (length reference) (max 3 (clip_window / 2))
      then value
      else if lte median (of_nat 0)
      then value
      else smaller value (times median (of_nat clip_multiple))

  -- `seen` holds the values before this one, the latest first.
  pub clip_from : List D → List D → List D
  unfolding clip_value
  clip_from seen [] = []
  clip_from seen (value ∷ rest) =
      clip_value (take clip_window seen) value ∷ clip_from (value ∷ seen) rest

  pub clip_true_range_outliers : List D → List D
  unfolding clip_from
  clip_true_range_outliers = clip_from []

  raw_true_range_after : D → List (OhlcBar D) → List D
  raw_true_range_after prev_close [] = []
  raw_true_range_after prev_close (bar ∷ bars) =
      larger (larger (minus bar.high bar.low) (abs (minus bar.high prev_close)))
        (abs (minus bar.low prev_close))
      ∷ raw_true_range_after bar.close bars

  raw_true_range : List (OhlcBar D) → List D
  unfolding raw_true_range_after
  raw_true_range [] = []
  raw_true_range (bar ∷ bars) = minus bar.high bar.low ∷ raw_true_range_after bar.close bars

  pub true_range : List (OhlcBar D) → List D
  unfolding raw_true_range clip_true_range_outliers
  true_range bars = clip_true_range_outliers (raw_true_range bars)

  sum_from : D → List D → D
  sum_from acc [] = acc
  sum_from acc (x ∷ xs) = sum_from (plus acc x) xs

  unfoldable pub mean : List D → D
  unfolding sum_from
  mean xs = divided_by (sum_from (of_nat 0) xs) (of_nat (length xs))

  -- The loop of `wilderSmooth`: `seen` holds the values before this one, in order, and `prev` is the
  -- last smoothed value.
  wilder_from : ℕ → List D → Option D → List D → List (Option D)
  unfolding mean
  wilder_from period seen prev [] = []
  wilder_from period seen prev (v ∷ vs) =
      let so_far = seen ++ v ∷ [] in
      let alpha = divided_by (of_nat 1) (of_nat period) in
      let next : Option D = if ltb (length so_far) period then none else elim prev [
        | none ↦ some (mean so_far)
        | some p ↦ some (plus (times alpha v) (times (minus (of_nat 1) alpha) p))
      ] in
      next ∷ wilder_from period so_far next vs

  pub wilder_smooth : List D → ℕ → List (Option D)
  unfolding wilder_from
  wilder_smooth values period = wilder_from period [] none values

  -- `atr(bars)`, at its default period of 14.
  unfoldable pub atr : List (OhlcBar D) → List (Option D)
  unfolding true_range wilder_smooth
  atr bars = wilder_smooth (true_range bars) 14
