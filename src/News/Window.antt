-- ===== src/News/Window.antt =====
-- The window around a release, of `getNewsRiskStatus` in backend/src/news/risk.ts.
use tera_trade.Number.{Number}
use tera_trade.Prelude.{
  All, All-filter, Bool, Bool-cases, IsIn, IsIn-All, List, Option, [], arith, false, filter, inl,
  inr, is_some, leb, ltb, none, refl, some, true, ℕ, ◌*◌, ◌∷◌, ◌≡◌, ◌≤◌,
}
use tera_trade.News.{
  NewsRiskStatus, NewsEvent, event_delta, get_news_risk_status, insert_event, is_in_window, nearer,
  nearest_of, sort_events, status_of,
}

insert_event-All :
    (P : NewsEvent → Type 0) (x : NewsEvent) (xs : List NewsEvent)
    → P x
    → All P xs
    → All P (insert_event x xs)
unfolding insert_event
insert_event-All P x [] p h = (p, tt)
insert_event-All P x (y ∷ ys) p h = elim (Bool-cases (leb x.event_time y.event_time)) [
  | inl e ↦ ground (arith, p, h)
  | inr e ↦ ground (arith, insert_event-All P x ys p h.1)
]

insert_event_back :
    (P : NewsEvent → Type 0) (x : NewsEvent) (xs : List NewsEvent)
    → All P (insert_event x xs)
    → P x × All P xs
unfolding insert_event
insert_event_back P x [] h = h
insert_event_back P x (y ∷ ys) h = elim (Bool-cases (leb x.event_time y.event_time)) [
  | inl e ↦ ground (arith, h)
  | inr e ↦
      let tail : P y × All P (insert_event x ys) = ground (arith, h) in
      let (p, ps) = insert_event_back P x ys tail.1 in (p, (tail.0, ps))
]

sort_events-All : (P : NewsEvent → Type 0) (xs : List NewsEvent) → All P xs → All P (sort_events xs)
unfolding sort_events
sort_events-All P [] h = tt
sort_events-All P (x ∷ xs) h = insert_event-All P x (sort_events xs) h.0 (sort_events-All P xs h.1)

sort_events_back :
    (P : NewsEvent → Type 0) (xs : List NewsEvent) → All P (sort_events xs) → All P xs
unfolding sort_events
sort_events_back P [] h = tt
sort_events_back P (x ∷ xs) h =
    let (p, ps) = insert_event_back P x (sort_events xs) h in (p, sort_events_back P xs ps)

nearest_of-All :
    (Q : NewsEvent → Type 0) (now : ℕ) (closest : NewsEvent) (events : List NewsEvent)
    → Q closest
    → All Q events
    → Q (nearest_of now closest events)
unfolding nearest_of nearer
nearest_of-All Q now closest [] q h = q
nearest_of-All Q now closest (e ∷ events) q h =
    let step : Q (nearer now closest e) = ground (arith, q, h) in
    nearest_of-All Q now (nearer now closest e) events step h.1

nearer_le :
    (now : ℕ) (closest e : NewsEvent)
    → let m = nearer now closest e in
      (event_delta now m ≤ event_delta now closest) × (event_delta now m ≤ event_delta now e)
unfolding nearer
nearer_le now closest e = elim (Bool-cases (ltb (event_delta now e) (event_delta now closest))) [
  | inl k ↦ ground (arith, k)
  | inr k ↦ ground (arith, k)
]

nearest_of_le :
    (now : ℕ) (closest : NewsEvent) (events : List NewsEvent)
    → let m = nearest_of now closest events in
      (event_delta now m ≤ event_delta now closest)
      × All (λ x. event_delta now m ≤ event_delta now x) events
unfolding nearest_of
nearest_of_le now closest [] = (omega arith, tt)
nearest_of_le now closest (e ∷ events) =
    let next = nearer now closest e in
    let (below, inside) = nearest_of_le now next events in
    let (first, second) = nearer_le now closest e in
    (omega (arith, below, first), (omega (arith, below, second), inside))

-- With the query's events: none is in the window, or the one answered is a row in the window, and no row
-- in the window is closer to the time asked.
abbrev pub IsNearestEvent : ℕ → ℕ → Bool → List NewsEvent → Option NewsEvent → Type 0
IsNearestEvent now window_ms only events none =
    All (λ e. is_in_window now window_ms only e ≡ false) events
IsNearestEvent now window_ms only events (some m) =
    (is_in_window now window_ms only m ≡ true)
    × IsIn m events
    × All (λ e. is_in_window now window_ms only e ≡ true → event_delta now m ≤ event_delta now e)
        events

filter_kept :
    (P : NewsEvent → Type 0) (p : NewsEvent → Bool) (xs : List NewsEvent)
    → All P xs
    → All (λ x. (p x ≡ true) × P x) (filter p xs)
filter_kept P p [] h = tt
filter_kept P p (x ∷ xs) h = elim (Bool-cases (p x)) [
  | inl e ↦ ground (arith, h, filter_kept P p xs h.1)
  | inr e ↦ ground (arith, filter_kept P p xs h.1)
]

false_of_absurd : (b : Bool) → (b ≡ true → ⊥) → b ≡ false
false_of_absurd false h = refl
false_of_absurd true h = absurd (h refl)

none_left :
    (p : NewsEvent → Bool) (xs : List NewsEvent)
    → All (λ x. p x ≡ true → ⊥) xs
    → All (λ x. p x ≡ false) xs
none_left p [] h = tt
none_left p (x ∷ xs) h = (false_of_absurd (p x) h.0, none_left p xs h.1)

module _ (D : Type 0) ⦃n : Number D⦄ where
  status_of-IsNearestEvent :
      (now window_ms : ℕ) (only : Bool) (events found : List NewsEvent)
      → All (λ e. (is_in_window now window_ms only e ≡ true) × IsIn e events) found
      → ((P : NewsEvent → Type 0)
          → All P found
          → All (λ e. is_in_window now window_ms only e ≡ true → P e) events)
      → let s : NewsRiskStatus D = status_of now found in
        IsNearestEvent now window_ms only events s.nearest_event
        × (s.in_risk_window ≡ is_some s.nearest_event)
  unfolding status_of
  status_of-IsNearestEvent now window_ms only events [] h back =
      (none_left (is_in_window now window_ms only) events (back (λ e. ⊥) tt), refl)
  status_of-IsNearestEvent now window_ms only events (e ∷ found) h back =
      let m = nearest_of now e found in
      let (inside, listed) =
        nearest_of-All (λ x. (is_in_window now window_ms only x ≡ true) × IsIn x events) now e found
          h.0 h.1 in
      (
        (
          inside,
          listed,
          back (λ x. event_delta now m ≤ event_delta now x) (nearest_of_le now e found),
        ),
        refl,
      )

  -- A risk window is reported exactly where an event is answered; that event is a row in the window and
  -- none in the window is closer to the time asked, and where none is answered no row is in the window.
  pub get_news_risk_status-IsNearestEvent :
      (window_minutes now : ℕ) (only : Bool) (events : List NewsEvent)
      → let s : NewsRiskStatus D = get_news_risk_status window_minutes now only events in
        IsNearestEvent now (window_minutes * 60000) only events s.nearest_event
        × (s.in_risk_window ≡ is_some s.nearest_event)
  unfolding get_news_risk_status
  get_news_risk_status-IsNearestEvent window_minutes now only events =
      let p : NewsEvent → Bool = is_in_window now (window_minutes * 60000) only in
      status_of-IsNearestEvent now (window_minutes * 60000) only events
        (sort_events (filter p events))
        (sort_events-All (λ e. (p e ≡ true) × IsIn e events) (filter p events)
          (filter_kept (λ e. IsIn e events) p events
            (IsIn-All (λ e. IsIn e events) events (λ e k. k))))
        (λ P h. All-filter p P events (sort_events_back P (filter p events) h))
