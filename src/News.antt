-- ===== src/News.antt =====
-- backend/src/news/risk.ts: whether a release is close. The rows of `newsEvent` are a list in the order of
-- the database; times are milliseconds since the epoch.
pub mod Window
use tera_trade.Prelude.{
  Bool, List, Option, String, [], false, filter, if◌then◌else◌, leb, ltb, none, not, some, str_eq,
  true, ℕ, ◌&&◌, ◌*◌, ◌+◌, ◌-◌, ◌||◌, ◌∷◌,
}
use tera_trade.Number.{Number, divided_by, minus, of_nat}

pub record NewsEvent : Type 0 where
  pub event_name : String
  pub event_time : ℕ
  pub impact : String

pub record NewsRiskStatus (D : Type 0) : Type 0 where
  pub in_risk_window : Bool
  pub nearest_event : Option NewsEvent
  pub minutes_to_event : Option D

-- The `where` of the query.
pub is_in_window : ℕ → ℕ → Bool → NewsEvent → Bool
is_in_window now window_ms high_impact_only e =
    (leb (now - window_ms) e.event_time && leb e.event_time (now + window_ms))
    && (not high_impact_only || str_eq e.impact "high")

insert_event : NewsEvent → List NewsEvent → List NewsEvent
insert_event x [] = x ∷ []
insert_event x (y ∷ ys) =
    let rest = insert_event x ys in if leb x.event_time y.event_time then x ∷ y ∷ ys else y ∷ rest

-- `orderBy: { eventTime: "asc" }`
pub sort_events : List NewsEvent → List NewsEvent
unfolding insert_event
sort_events [] = []
sort_events (x ∷ xs) = insert_event x (sort_events xs)

-- The absolute value of the difference of two times.
abbrev pub event_delta : ℕ → NewsEvent → ℕ
event_delta now e = (e.event_time - now) + (now - e.event_time)

pub nearer : ℕ → NewsEvent → NewsEvent → NewsEvent
nearer now closest e = if ltb (event_delta now e) (event_delta now closest) then e else closest

pub nearest_of : ℕ → NewsEvent → List NewsEvent → NewsEvent
unfolding nearer
nearest_of now closest [] = closest
nearest_of now closest (e ∷ events) = nearest_of now (nearer now closest e) events

module _ {D : Type 0} ⦃n : Number D⦄ where
  pub status_of : ℕ → List NewsEvent → NewsRiskStatus D
  unfolding nearest_of
  status_of now [] = record {
    in_risk_window = false;
    nearest_event = none;
    minutes_to_event = none;
  }
  status_of now (e ∷ events) =
      let closest = nearest_of now e events in
      record {
        in_risk_window = true;
        nearest_event = some closest;
        minutes_to_event =
            some (divided_by (minus (of_nat closest.event_time) (of_nat now)) (of_nat 60000));
      }

  unfoldable pub get_news_risk_status : ℕ → ℕ → Bool → List NewsEvent → NewsRiskStatus D
  unfolding status_of sort_events is_in_window
  get_news_risk_status window_minutes now high_impact_only events =
      status_of now
        (sort_events (filter (is_in_window now (window_minutes * 60000) high_impact_only) events))
