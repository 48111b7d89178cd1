-- ===== src/Risk/Brackets/Anchoring.antt =====
-- A bracket that is moved to the real fill, and one that is rounded to ticks.
use tera_trade.Prelude.{◌≡◌, ◌⊎◌, Option, some, none, arith, subst}
use tera_trade.Number.{
  Number, IsOrdered, IsExact, plus, minus, ceil_to, floor_to, ◌≼◌, ◌≺◌, ceil_to, floor_to, plus,
}
use tera_trade.Market.{Side}
use tera_trade.Risk.Brackets.{
  bracket_is_valid_against_entry, reanchor_bracket_to_real_entry, round_away_from_entry,
}

module _ {D : Type 0} ⦃n : Number D⦄ where
  abbrev shifted : D → Option D → Option D
  shifted o none = none
  shifted o (some target) = some (plus target o)

  bracket_is_valid-plus :
      IsExact D
      → (entry stop o : D) (target : Option D) (side : Side)
      → bracket_is_valid_against_entry (plus entry o) (plus stop o) (shifted o target) side
        ≡ bracket_is_valid_against_entry entry stop target side
  unfolding bracket_is_valid_against_entry
  bracket_is_valid-plus laws entry stop o none side =
      ground (arith, laws.lte-plus-plus stop entry o, laws.lte-plus-plus entry stop o)
  bracket_is_valid-plus laws entry stop o (some target) side = ground (
    arith,
    laws.lte-plus-plus stop entry o,
    laws.lte-plus-plus entry stop o,
    laws.lte-plus-plus target entry o,
    laws.lte-plus-plus entry target o,
    laws.minus-plus-plus target entry o,
    laws.minus-plus-plus entry stop o,
  )

  moved_target :
      (recorded real stop : D) (target : Option D)
      → (reanchor_bracket_to_real_entry recorded real stop target).new_take_profit_price
        ≡ shifted (minus real recorded) target
  unfolding reanchor_bracket_to_real_entry
  moved_target recorded real stop target = ground arith

  -- Where additions and subtractions are exact, re-anchoring keeps the validity of a bracket: against
  -- the real entry the moved bracket is valid exactly when the old one was against the recorded entry.
  pub bracket_is_valid-reanchor :
      IsExact D
      → (recorded real stop : D) (target : Option D) (side : Side)
      → let moved = reanchor_bracket_to_real_entry recorded real stop target in
        bracket_is_valid_against_entry real moved.new_stop_price moved.new_take_profit_price side
        ≡ bracket_is_valid_against_entry recorded stop target side
  unfolding reanchor_bracket_to_real_entry
  bracket_is_valid-reanchor laws recorded real stop target side =
      let o = minus real recorded in
      rw moved_target (
        subst
          (λ e.
            bracket_is_valid_against_entry e (plus stop o) (shifted o target) side
            ≡ bracket_is_valid_against_entry recorded stop target side)
          (laws.plus-minus_cancel recorded real)
          (bracket_is_valid-plus laws recorded stop o target side))

  -- Rounding to ticks never brings a price nearer to the entry, nor across it: a price at or above the
  -- entry is not lowered, and one below it is not raised.
  pub round_away_from_entry_away :
      IsOrdered D
      → (price entry tick : D)
      → let rounded = round_away_from_entry price entry tick in
        ((entry ≼ price) × (entry ≼ rounded) × (price ≼ rounded))
        ⊎ ((price ≺ entry) × (rounded ≺ entry) × (rounded ≼ price))
  unfolding round_away_from_entry
  round_away_from_entry_away laws price entry tick = ground (
    arith,
    laws.lte_total price entry,
    laws.lte_total price price,
    laws.lte_trans entry price (ceil_to price tick),
    laws.lte_trans entry (floor_to price tick) price,
    laws.le-ceil_to price tick,
    laws.floor_to-le price tick,
  )
