-- ===== src/Risk/TiltGate/Alignment.antt =====
-- What the Tilt gate lets through.
use mathlib.Core.Option.{some-injective}
use tera_trade.Prelude.{
  ◌≢◌, ◌-◌, ltb, Bool-cases, ℕ, ◌+◌, ◌≤◌, ◌≡◌, ◌↔◌, ◌⊎◌, inl, inr, true, false, Option, some, none,
  refl, arith,
}
use tera_trade.Number.{Number, of_nat, ◌≼◌, gte}
use tera_trade.Market.{Side, long, short, opposite}
use tera_trade.Risk.TiltGate.{
  TiltRead, OrderFlowSnapshot, TiltReading, tilt_reading, updated_at, tilt_favored_side,
  check_reading, check_favor, check_tilt_alignment, tilt_block_pct, tilt_max_age_ms,
}

check_favor_iff :
    (side : Side) (read : TiltRead) (favored : Option Side)
    → ((check_favor side read favored).allowed ≡ true) ↔ (favored ≢ some (opposite side))
unfolding check_favor
check_favor_iff long read favored = ground arith
check_favor_iff short read favored = ground arith

module _ {D : Type 0} ⦃n : Number D⦄ where
  -- A row of the reading leans one way at 55 percent, the first entry of the row before the second.
  abbrev pub LeansFirst : D → D → Type 0
  LeansFirst a b = of_nat tilt_block_pct ≼ a

  abbrev pub LeansSecond : D → D → Type 0
  LeansSecond a b = (gte a (of_nat tilt_block_pct) ≡ false) × (of_nat tilt_block_pct ≼ b)

  -- "Trade with the winning side": the rule that the gate's comment states.
  abbrev pub Wins : TiltReading D → Side → Type 0
  Wins r long =
      (LeansFirst r.long_pct r.short_pct × LeansFirst r.positive_pct r.negative_pct)
      ⊎ (LeansSecond r.long_pct r.short_pct × LeansSecond r.positive_pct r.negative_pct)
  Wins r short =
      (LeansSecond r.long_pct r.short_pct × LeansFirst r.positive_pct r.negative_pct)
      ⊎ (LeansFirst r.long_pct r.short_pct × LeansSecond r.positive_pct r.negative_pct)

  tilt_favored_side_iff :
      (r : TiltReading D) (side : Side)
      → ((tilt_favored_side r (of_nat tilt_block_pct)).side ≡ some side) ↔ Wins r side
  unfolding tilt_favored_side
  tilt_favored_side_iff r long = ground arith
  tilt_favored_side_iff r short = ground arith

  abbrev Passes : TiltReading D → ℕ → Side → ℕ → Type 0
  Passes r t side now_ms = (now_ms ≤ t + tilt_max_age_ms) × ¬ Wins r (opposite side)

  check_reading_iff :
      (side : Side) (now_ms : ℕ) (r : TiltReading D) (t : ℕ)
      → ((check_reading side now_ms (some r) (some t)).allowed ≡ true) ↔ Passes r t side now_ms
  unfolding check_reading
  check_reading_iff side now_ms r t =
      let (to, from) =
        check_favor_iff side (tilt_favored_side r (of_nat tilt_block_pct)).read
          (tilt_favored_side r (of_nat tilt_block_pct)).side in
      let (wins, favored) = tilt_favored_side_iff r (opposite side) in
      elim (Bool-cases (ltb tilt_max_age_ms (now_ms - t))) [
        | inl stale ↦ rw stale (λ e. cc, λ p. absurd (ground (arith, p.0)))
        | inr fresh ↦
            rw fresh (λ e. (ground arith, λ w. to e (favored w)), λ p. from (λ e. p.1 (wins e)))
      ]

  abbrev PassesOption : Option (TiltReading D) → Option ℕ → Side → ℕ → Type 0
  PassesOption reading updated side now_ms =
      (r : TiltReading D) × (t : ℕ) × (reading ≡ some r)
      × (updated ≡ some t)
      × (now_ms ≤ t + tilt_max_age_ms)
      × ¬ Wins r (opposite side)

  check_option_iff :
      (side : Side) (now_ms : ℕ) (reading : Option (TiltReading D)) (updated : Option ℕ)
      → ((check_reading side now_ms reading updated).allowed ≡ true)
        ↔ PassesOption reading updated side now_ms
  unfolding check_reading
  check_option_iff side now_ms (some r) (some t) =
      let (to, from) = check_reading_iff side now_ms r t in
      (
        λ e. (r, t, refl, refl, (to e).0, (to e).1),
        λ p. from (rw (some-injective _ _ p.3, some-injective _ _ p.2) (p.4, p.5)),
      )
  check_option_iff side now_ms none updated = (λ e. cc, λ p. cc p.2)
  check_option_iff side now_ms (some r) none = (λ e. cc, λ p. cc p.3)

  -- An entry is blocked exactly when there is no reading, it is older than two minutes, or by the rule
  -- of the winning side it favours the opposite direction.
  pub check_tilt_alignment_iff :
      (snapshot : Option (OrderFlowSnapshot D)) (side : Side) (now_ms : ℕ)
      → ((check_tilt_alignment snapshot side now_ms).allowed ≡ true) ↔ (
          (r : TiltReading D) × (t : ℕ) × (tilt_reading snapshot ≡ some r)
          × (updated_at snapshot ≡ some t)
          × (now_ms ≤ t + tilt_max_age_ms)
          × ¬ Wins r (opposite side))
  unfolding check_tilt_alignment
  check_tilt_alignment_iff snapshot side now_ms =
      check_option_iff side now_ms (tilt_reading snapshot) (updated_at snapshot)
