-- ===== src/Risk/TiltGate.antt =====
-- backend/src/risk/tiltGate.ts: the direction gate on TopstepX's "Tilt" reading. A number that may be
-- missing is an Option, a time is in milliseconds, and a text names which message is built.
pub mod Alignment
use tera_trade.Prelude.{ℕ, ◌-◌, Bool, true, false, ltb, if◌then◌else◌, Option, none, some}
use tera_trade.Number.{Number, gte, of_nat}
use tera_trade.Market.{Side, long, short, opposite, side_eq}

-- The fields of `OrderFlowSnapshot` that the gate reads.
pub record OrderFlowSnapshot (D : Type 0) : Type 0 where
  pub tilt_long_bias : Option D
  pub tilt_short_bias : Option D
  pub tilt_positive_pct : Option D
  pub tilt_negative_pct : Option D
  pub tilt_updated_at_ms : Option ℕ

pub record TiltReading (D : Type 0) : Type 0 where
  pub long_pct : D
  pub short_pct : D
  pub positive_pct : D
  pub negative_pct : D

pub data TiltRead : Type 0 where
  crowd_too_even winners_too_even : TiltRead
  winning trapped : Side → TiltRead

pub record TiltFavor : Type 0 where
  pub side : Option Side
  pub read : TiltRead

pub data TiltReason : Type 0 where
  no_reading stale_reading : TiltReason
  no_clear_lean favors against : TiltRead → TiltReason

pub record TiltCheck : Type 0 where
  pub allowed : Bool
  pub favored_side : Option Side
  pub reason : TiltReason

abbrev pub tilt_block_pct : ℕ
tilt_block_pct = 55

abbrev pub tilt_max_age_ms : ℕ
tilt_max_age_ms = 120_000

favor_of : Option Side → Option Bool → TiltFavor
favor_of none w = record { side = none; read = crowd_too_even }
favor_of (some crowd) none = record { side = none; read = winners_too_even }
favor_of (some crowd) (some true) = record { side = some crowd; read = winning crowd }
favor_of (some crowd) (some false) = record { side = some (opposite crowd); read = trapped crowd }

check_favor : Side → TiltRead → Option Side → TiltCheck
check_favor side read none = record {
  allowed = true;
  favored_side = none;
  reason = no_clear_lean read;
}
check_favor side read (some favored) =
    if side_eq favored side
    then record { allowed = true; favored_side = some favored; reason = favors read }
    else record { allowed = false; favored_side = some favored; reason = against read }

module _ {D : Type 0} ⦃n : Number D⦄ where
  reading_of : Option D → Option D → Option D → Option D → Option (TiltReading D)
  reading_of (some l) (some s) (some p) (some q) =
      some (record { long_pct = l; short_pct = s; positive_pct = p; negative_pct = q })
  reading_of _ _ _ _ = none

  unfoldable pub tilt_reading : Option (OrderFlowSnapshot D) → Option (TiltReading D)
  unfolding reading_of
  tilt_reading none = none
  tilt_reading (some s) =
      reading_of s.tilt_long_bias s.tilt_short_bias s.tilt_positive_pct s.tilt_negative_pct

  abbrev pub updated_at : Option (OrderFlowSnapshot D) → Option ℕ
  updated_at none = none
  updated_at (some s) = s.tilt_updated_at_ms

  pub crowd_of : TiltReading D → D → Option Side
  crowd_of r min_pct =
      if gte r.long_pct min_pct
      then some long
      else if gte r.short_pct min_pct
      then some short
      else none

  pub winning_of : TiltReading D → D → Option Bool
  winning_of r min_pct =
      if gte r.positive_pct min_pct
      then some true
      else if gte r.negative_pct min_pct
      then some false
      else none

  pub tilt_favored_side : TiltReading D → D → TiltFavor
  unfolding crowd_of winning_of favor_of
  tilt_favored_side r min_pct = favor_of (crowd_of r min_pct) (winning_of r min_pct)

  check_reading : Side → ℕ → Option (TiltReading D) → Option ℕ → TiltCheck
  unfolding check_favor tilt_favored_side
  check_reading side now_ms (some reading) (some updated_at_ms) =
      let favor = tilt_favored_side reading (of_nat tilt_block_pct) in
      if ltb tilt_max_age_ms (now_ms - updated_at_ms)
      then record { allowed = false; favored_side = none; reason = stale_reading }
      else check_favor side favor.read favor.side
  check_reading side now_ms _ _ = record {
    allowed = false;
    favored_side = none;
    reason = no_reading;
  }

  unfoldable pub check_tilt_alignment : Option (OrderFlowSnapshot D) → Side → ℕ → TiltCheck
  unfolding check_reading tilt_reading
  check_tilt_alignment snapshot side now_ms =
      check_reading side now_ms (tilt_reading snapshot) (updated_at snapshot)
