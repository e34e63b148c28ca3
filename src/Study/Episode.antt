-- ===== src/Study/Episode.antt =====
-- What `_complete_event` returns: the episode of the event with its labels.
use a_share_limit_pullback.Base.{
  String, ℕ, ◌≤◌, true, some, List, ◌∷◌, no_reward_room, Outcome, checked-ok, Whenever, >>=-eq-ok,
  ok, inl, inr, ◌≡◌, refl, sym, ap, ◌∙◌, subst,
}
use a_share_limit_pullback.Decimal.{Decimal}
use a_share_limit_pullback.Models.Market.{DailyBar, validate_ohlc}
use a_share_limit_pullback.Models.Outcome.{OutcomeEpisode, OutcomeStudyConfig, validate_episode}
use a_share_limit_pullback.Study.Bounds.{IsTradable, entry_of-IsTradable}
use a_share_limit_pullback.Study.Complete.{Labels, complete_event, episode_of, labels_of, stripped}
use a_share_limit_pullback.Study.Consistent.{IsConsistent, ReturnsUnless, labels_of-IsConsistent}
use a_share_limit_pullback.Study.Event.{FrozenEvent, future_of}
use a_share_limit_pullback.Study.Fill.{entry_of, filled_at}
use a_share_limit_pullback.Study.Priced.{HasFill, labels_of-HasFill}

module _ (strip : String → String) (event : FrozenEvent) (bars : List DailyBar)
    (config : OutcomeStudyConfig) where
  pub labels_of_episode :
      {episode : OutcomeEpisode}
      → complete_event strip event bars config ≡ ok episode
      → (l : Labels) × (labels_of event config.max_holding_sessions
            (future_of bars event.signal_date)
          ≡ ok l)
        × (episode_of (stripped strip event) config (future_of bars event.signal_date) l ≡ episode)
  unfolding complete_event
  labels_of_episode h =
      let (l, e, h₀) =
        >>=-eq-ok (labels_of event config.max_holding_sessions (future_of bars event.signal_date)) _
          h in
      (l, e, (checked-ok "OutcomeEpisode" validate_episode _ h₀).0)

-- the labels of an episode
unfoldable pub labels_in : OutcomeEpisode → Labels
labels_in e = record {
  fill_status = e.fill_status;
  fill_type = e.fill_type;
  fill_date = e.fill_date;
  fill_price = e.fill_price;
  outcome = e.outcome;
  resolution_date = e.resolution_date;
  exit_price = e.exit_price;
  r_multiple = e.r_multiple;
  conservative_r_multiple = e.conservative_r_multiple;
  mfe_pct = e.mfe_pct;
  mae_pct = e.mae_pct;
  holding = e.holding_sessions_to_resolution;
  eligibility_reason = e.eligibility_reason;
}

pub labels_in-episode_of :
    (event : FrozenEvent) (config : OutcomeStudyConfig) (future : List DailyBar) (l : Labels)
    → labels_in (episode_of event config future l) ≡ l
unfolding labels_in episode_of
labels_in-episode_of event config future l = refl

ok_case :
    {A : Type 0} (P : A → Type 0) {o : Outcome A} {a : A}
    → ReturnsUnless no_reward_room P o
    → o ≡ ok a
    → P a
unfolding ReturnsUnless
ok_case P {o = o} h e = subst (ReturnsUnless no_reward_room P) e h

-- With at least one session to hold, the labels of an episode that an event is completed to fit
-- together: the fill's status and the outcome go together, a price and a day of the fill are there
-- exactly when it is filled, the sessions held are there exactly when it is filled and not censored
-- and are from one to the configured number, a resolution's day is there with them, and the exit's
-- price is S1 for a win, the invalid price for a loss, and none otherwise.
pub complete_event-IsConsistent :
    (strip : String → String) (event : FrozenEvent) (bars : List DailyBar)
    (config : OutcomeStudyConfig) (episode : OutcomeEpisode)
    → 1 ≤ config.max_holding_sessions
    → complete_event strip event bars config ≡ ok episode
    → IsConsistent event.s1_price event.invalid_price config.max_holding_sessions
        (labels_in episode)
complete_event-IsConsistent strip event bars config episode pos h =
    let (l, e, same) = labels_of_episode strip event bars config h in
    let future = future_of bars event.signal_date in
    subst (IsConsistent event.s1_price event.invalid_price config.max_holding_sessions)
      (sym (labels_in-episode_of (stripped strip event) config future l) ∙ ap labels_in same)
      (ok_case _ (labels_of-IsConsistent event config.max_holding_sessions future pos) e)

module _ (event : FrozenEvent) (future : List DailyBar) (bar : DailyBar)
    (rest : List DailyBar) where
  pub HasFill-IsTradable :
      (sessions : ℕ) (l : Labels) {price : Decimal}
      → future ≡ bar ∷ rest
      → validate_ohlc bar ≡ true
      → HasFill event sessions future l
      → l.fill_price ≡ some price
      → IsTradable bar price × (l.fill_date ≡ some bar.trade_date)
  HasFill-IsTradable sessions l starts valid (inl empty) h = cc
  HasFill-IsTradable sessions l {price} starts valid (inr (plan, planned, fill)) h =
      let bars : fill.bar ≡ bar = cc in
      let prices : fill.price ≡ price = cc in
      (
        subst (λ p. IsTradable bar p) prices
            (entry_of-IsTradable plan bar valid
              (subst (λ b. entry_of plan b ≡ filled_at l.fill_type fill.price) bars fill.entered)),
        subst (λ b. l.fill_date ≡ some b.trade_date) bars fill.dated,
      )

-- The first bar after the signal, if it is valid, is the one that fills an episode: the fill's day
-- is its day, and the price of the fill is positive and within its low and its high.
pub complete_event-IsTradable :
    (strip : String → String) (event : FrozenEvent) (bars : List DailyBar)
    (config : OutcomeStudyConfig) (episode : OutcomeEpisode) (bar : DailyBar) (rest : List DailyBar)
    (price : Decimal)
    → future_of bars event.signal_date ≡ bar ∷ rest
    → validate_ohlc bar ≡ true
    → complete_event strip event bars config ≡ ok episode
    → episode.fill_price ≡ some price
    → IsTradable bar price × (episode.fill_date ≡ some bar.trade_date)
unfolding episode_of
complete_event-IsTradable strip event bars config episode bar rest price starts valid h filled =
    let (l, e, same) = labels_of_episode strip event bars config h in
    let future = future_of bars event.signal_date in
    let tradable =
      HasFill-IsTradable event future bar rest config.max_holding_sessions l {price = price} starts
        valid
        (subst (Whenever (HasFill event config.max_holding_sessions future)) e
          (labels_of-HasFill event config.max_holding_sessions future))
        (ap (λ x. x.fill_price) same ∙ filled) in
    (tradable.0, sym (ap (λ x. x.fill_date) same) ∙ tradable.1)
