-- ===== src/Study/Cohort.antt =====
-- The counts of a cohort of episodes.
use a_share_limit_pullback.Base.{
  String, ◌+◌, ◌≤◌, Bool, true, false, not, ◌||◌, List, [], ◌∷◌, length, keep, if◌then◌else◌, All,
  is_some, ◌≡◌, refl, arith, subst, sym, Whenever, ok, inl, inr,
}
use a_share_limit_pullback.Models.Labels.{is_filled}
use a_share_limit_pullback.Models.Outcome.{OutcomeEpisode, OutcomeStudyConfig}
use a_share_limit_pullback.Models.Market.{DailyBar}
use a_share_limit_pullback.Study.Complete.{Labels, complete_event, episode_of, stripped}
use a_share_limit_pullback.Study.Consistent.{plan_of-IsPlanOf}
use a_share_limit_pullback.Study.Episode.{complete_event-IsConsistent, labels_in, labels_of_episode}
use a_share_limit_pullback.Study.Event.{FrozenEvent}
use a_share_limit_pullback.Study.Priced.{HasFill, labels_of-HasFill}
use a_share_limit_pullback.Study.Stats.{cohort, is_eligible_episode, stats, stats_of}
use a_share_limit_pullback.Study.Resolved.{goes_with}

adds_up :
    (events : List OutcomeEpisode)
    → (stats_of events).episodes
      ≡ (stats_of events).no_fill
        + (stats_of events).cancel_gap_invalid
        + (stats_of events).resolved
        + (stats_of events).censored
unfolding stats_of
adds_up [] = omega arith
adds_up (e ∷ events) = ground (arith, adds_up events)

-- In the statistics of any cohort, the episodes without a fill, the cancelled, the resolved and the
-- censored ones add up to the episodes.
pub stats-adds_up :
    (events : List OutcomeEpisode) (actionable_only : Bool)
    → (stats events actionable_only).episodes
      ≡ (stats events actionable_only).no_fill
        + (stats events actionable_only).cancel_gap_invalid
        + (stats events actionable_only).resolved
        + (stats events actionable_only).censored
unfolding stats
stats-adds_up events actionable_only = adds_up (cohort actionable_only events)

-- An episode that some event was completed to.
pub record IsCompleted (episode : OutcomeEpisode) : Type 0 where
  pub strip : String → String
  pub event : FrozenEvent
  pub bars : List DailyBar
  pub config : OutcomeStudyConfig
  pub holds : 1 ≤ config.max_holding_sessions
  pub completed : complete_event strip event bars config ≡ ok episode

-- what the counts need of an episode
record Counts (e : OutcomeEpisode) : Type 0 where
  fits : goes_with e.fill_status e.outcome ≡ true
  eligible : (not (is_filled e.fill_status) || is_eligible_episode e) ≡ true

filled-eligible :
    (strip : String → String) (event : FrozenEvent) (config : OutcomeStudyConfig)
    (future : List DailyBar) (l : Labels)
    → is_some l.fill_price ≡ is_filled l.fill_status
    → HasFill event config.max_holding_sessions future l
    → (not (is_filled l.fill_status)
        || is_eligible_episode (episode_of (stripped strip event) config future l))
      ≡ true
unfolding episode_of stripped
filled-eligible strip event config future l same (inl empty) = ground (arith, same, empty)
filled-eligible strip event config future l same (inr (plan, planned, fill)) =
    let prices = plan_of-IsPlanOf event plan planned in
    elim fill.explained [
      | inl free ↦ rw (prices.preferred, prices.invalid, prices.s1, free) (or_true _)
      | inr risky ↦ rw (prices.preferred, prices.invalid, prices.s1, risky) (or_true _)
    ]
  where
    or_true : (b : Bool) → (b || true) ≡ true
    or_true true = refl
    or_true false = refl

IsCompleted-Counts : (e : OutcomeEpisode) → IsCompleted e → Counts e
unfolding labels_in episode_of
IsCompleted-Counts e c =
    let fits = complete_event-IsConsistent c.strip c.event c.bars c.config e c.holds c.completed in
    let (l, labelled, same) = labels_of_episode c.strip c.event c.bars c.config c.completed in
    record {
      fits = fits.fits;
      eligible =
          subst (λ x. (not (is_filled x.fill_status) || is_eligible_episode x) ≡ true) same
            (filled-eligible c.strip c.event c.config _ l
              (subst (λ x. is_some x.fill_price ≡ is_filled x.fill_status) (sym same)
                fits.filled_price)
              (subst (Whenever (HasFill c.event c.config.max_holding_sessions _)) labelled
                (labels_of-HasFill c.event c.config.max_holding_sessions _)));
    }

All-counted : (events : List OutcomeEpisode) → All IsCompleted events → All Counts events
All-counted [] h = tt
All-counted (e ∷ events) (c, cs) = (IsCompleted-Counts e c, All-counted events cs)

All-keep :
    (p : OutcomeEpisode → Bool) (events : List OutcomeEpisode)
    → All IsCompleted events
    → All IsCompleted (keep p events)
All-keep p [] h = tt
All-keep p (e ∷ events) (c, cs) = ground (arith, c, All-keep p events cs)

resolved-le_filled :
    (events : List OutcomeEpisode)
    → All Counts events
    → (stats_of events).resolved ≤ (stats_of events).filled
unfolding stats_of goes_with
resolved-le_filled [] h = omega arith
resolved-le_filled (e ∷ events) (c, cs) = ground (arith, c.fits, resolved-le_filled events cs)

filled-le_eligible :
    (events : List OutcomeEpisode)
    → All Counts events
    → (stats_of events).filled ≤ (stats_of events).eligible
unfolding stats_of
filled-le_eligible [] h = omega arith
filled-le_eligible (e ∷ events) (c, cs) =
    one_more _ _ (is_filled e.fill_status) (is_eligible_episode e) c.eligible
      (filled-le_eligible events cs)
  where
    one_more :
        (xs ys : List OutcomeEpisode) (f g : Bool)
        → (not f || g) ≡ true
        → length xs ≤ length ys
        → length (if f then e ∷ xs else xs) ≤ length (if g then e ∷ ys else ys)
    one_more xs ys true true h k = omega (arith, k)
    one_more xs ys true false h k = cc
    one_more xs ys false true h k = omega (arith, k)
    one_more xs ys false false h k = k

-- In the statistics of a cohort of episodes that events were completed to, with at least one session
-- to hold, no more are resolved than are filled, and no more are filled than are eligible.
pub stats-ordered :
    (events : List OutcomeEpisode) (actionable_only : Bool)
    → All IsCompleted events
    → ((stats events actionable_only).resolved ≤ (stats events actionable_only).filled)
      × ((stats events actionable_only).filled ≤ (stats events actionable_only).eligible)
unfolding stats cohort
stats-ordered events actionable_only completed =
    let counted = All-counted (cohort actionable_only events) (All-keep _ events completed) in
    (resolved-le_filled _ counted, filled-le_eligible _ counted)
