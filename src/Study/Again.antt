-- ===== src/Study/Again.antt =====
-- An episode keeps the frozen event that it was completed from, and a relabelling on the same bars
-- gives it back.
use a_share_limit_pullback.Base.{
  Outcome, checked, ◌∙◌, map, ℕ, Bool, true, false, not, String, eq_refl, names_eq, Option, none,
  some, List, [], ◌∷◌, ◌==◌, All, keep-none, if◌then◌else◌, is_empty, ok, raise_if,
  frozen_field_changed, ◌>>=◌, ◌>>◌, ◌≡◌, refl, sym, ap, arith,
}
use a_share_limit_pullback.Decimal.Order.{=𝔻-refl}
use a_share_limit_pullback.Models.Labels.{label_is_b2_ready}
use a_share_limit_pullback.Models.Market.{DailyBar}
use a_share_limit_pullback.Models.Outcome.{OutcomeEpisode, OutcomeStudyConfig, validate_episode}
use a_share_limit_pullback.Study.Complete.{complete_event, episode_of, labels_of, plan_of, stripped}
use a_share_limit_pullback.Study.Episode.{labels_of_episode}
use a_share_limit_pullback.Study.Event.{FrozenEvent, future_of}
use a_share_limit_pullback.Study.Relabel.{
  changed, frozen_event_from_episode, frozen_fields, option_eq, relabel_frozen_event, same_flag,
  same_number, same_decimal, room_eq, pattern_eq,
}

number_refl : (n : ℕ) → (n == n) ≡ true
number_refl n = ground arith

flag_refl : (b : Bool) → same_flag b b ≡ true
flag_refl true = refl
flag_refl false = refl

names_refl : (names : List String) → names_eq names names ≡ true
names_refl [] = refl
names_refl (x ∷ names) = rw (eq_refl x) (names_refl names)

option_eq_refl :
    {A : Type 0} (same : A → A → Bool)
    → ((a : A) → same a a ≡ true)
    → (o : Option A) → option_eq same o o ≡ true
option_eq_refl same h none = refl
option_eq_refl same h (some a) = h a

-- a field that is the same is not among the changed ones
kept : {b : Bool} → b ≡ true → not b ≡ false
kept h = ap not h

infixr 4 ◌▹◌
◌▹◌ : {A B : Type 0} → A → B → A × B
a ▹ b = (a, b)

frozen_fields-kept : (x : OutcomeEpisode) → All (λ f. not f.1 ≡ false) (frozen_fields x x)
unfolding frozen_fields
frozen_fields-kept x =
    kept (eq_refl x.code)
    ▹ kept (eq_refl x.setup_id)
    ▹ kept (number_refl _)
    ▹ kept (number_refl _)
    ▹ kept (number_refl x.signal_date)
    ▹ kept (option_eq_refl same_number number_refl x.anchor_date)
    ▹ kept (option_eq_refl same_decimal =𝔻-refl x.anchor_price)
    ▹ kept (option_eq_refl same_decimal =𝔻-refl x.support_low)
    ▹ kept (option_eq_refl same_decimal =𝔻-refl x.support_high)
    ▹ kept (option_eq_refl same_decimal =𝔻-refl x.support_center)
    ▹ kept (option_eq_refl same_decimal =𝔻-refl x.b2_trigger_price)
    ▹ kept (=𝔻-refl x.setup_quality_score)
    ▹ kept (option_eq_refl same_decimal =𝔻-refl x.entry_quality_score)
    ▹ kept (option_eq_refl same_number number_refl x.days_since_anchor)
    ▹ kept (option_eq_refl room_eq (λ a. number_refl _) x.entry_room_state)
    ▹ kept (flag_refl x.is_entry_candidate)
    ▹ kept (option_eq_refl same_decimal =𝔻-refl x.preferred_entry)
    ▹ kept (option_eq_refl same_decimal =𝔻-refl x.buy_zone_low)
    ▹ kept (option_eq_refl same_decimal =𝔻-refl x.buy_zone_high)
    ▹ kept (option_eq_refl same_decimal =𝔻-refl x.invalid_price)
    ▹ kept (option_eq_refl same_decimal =𝔻-refl x.s1_price)
    ▹ kept (option_eq_refl same_decimal =𝔻-refl x.entry_reference_price)
    ▹ kept (option_eq_refl same_number number_refl x.next_trade_date)
    ▹ kept (number_refl x.future_sessions_available)
    ▹ kept (option_eq_refl pattern_eq (λ a. number_refl _) x.pattern_1d)
    ▹ kept (option_eq_refl pattern_eq (λ a. number_refl _) x.pattern_3d)
    ▹ kept (option_eq_refl pattern_eq (λ a. number_refl _) x.pattern_5d)
    ▹ kept (option_eq_refl pattern_eq (λ a. number_refl _) x.pattern_10d)
    ▹ kept (option_eq_refl same_flag flag_refl x.prep_conversion_1d)
    ▹ kept (option_eq_refl same_flag flag_refl x.prep_conversion_3d)
    ▹ kept (option_eq_refl same_flag flag_refl x.prep_conversion_5d)
    ▹ kept (option_eq_refl same_decimal =𝔻-refl x.prep_mfe_1d)
    ▹ kept (option_eq_refl same_decimal =𝔻-refl x.prep_mfe_3d)
    ▹ kept (option_eq_refl same_decimal =𝔻-refl x.prep_mfe_5d)
    ▹ kept (option_eq_refl same_decimal =𝔻-refl x.prep_mae_1d)
    ▹ kept (option_eq_refl same_decimal =𝔻-refl x.prep_mae_3d)
    ▹ kept (option_eq_refl same_decimal =𝔻-refl x.prep_mae_5d)
    ▹ kept (number_refl x.raw_signal_days)
    ▹ kept (eq_refl x.data_quality)
    ▹ kept (names_refl x.quality_flags)
    ▹ kept (eq_refl x.snapshot_id)
    ▹ kept (option_eq_refl same_number number_refl x.snapshot_created_at)
    ▹ kept (eq_refl x.strategy_commit)
    ▹ kept (eq_refl x.strategy_config_hash)
    ▹ kept (eq_refl x.trade_plan_config_hash)
    ▹ kept (eq_refl x.outcome_config_hash)
    ▹ kept (eq_refl x.frozen_event_hash)
    ▹ tt

nothing_changed : (x : OutcomeEpisode) → changed (frozen_fields x x) ≡ []
nothing_changed x = keep-none (λ f. not f.1) (frozen_fields x x) (frozen_fields-kept x)

module _ (strip : String → String) (event : FrozenEvent) (bars : List DailyBar)
    (config : OutcomeStudyConfig) (episode : OutcomeEpisode)
    (completed : complete_event strip event bars config ≡ ok episode) where
  -- The frozen event of an episode is the event that it was completed from, with its texts stripped.
  pub frozen_event_from_episode-complete_event :
      frozen_event_from_episode episode ≡ stripped strip event
  unfolding frozen_event_from_episode episode_of stripped
  frozen_event_from_episode-complete_event =
      let (l, labelled, same) = labels_of_episode strip event bars config completed in
      ap frozen_event_from_episode (sym same)

  module _ (idempotent : (s : String) → strip (strip s) ≡ strip s) where
    strip_all : (names : List String) → map strip (map strip names) ≡ map strip names
    strip_all [] = refl
    strip_all (x ∷ names) = rw (idempotent x, strip_all names) refl

    stripped_twice : stripped strip (stripped strip event) ≡ stripped strip event
    unfolding stripped
    stripped_twice =
        rw
          (
            idempotent event.code,
            idempotent event.setup_id,
            idempotent event.data_quality,
            strip_all event.quality_flags,
            idempotent event.snapshot_id,
            idempotent event.strategy_commit,
            idempotent event.strategy_config_hash,
            idempotent event.trade_plan_config_hash,
            idempotent event.outcome_config_hash,
            idempotent event.frozen_event_hash,
          )
          refl

    -- the completion with the texts of `copy`
    completed_with : FrozenEvent → Outcome OutcomeEpisode
    completed_with copy =
        labels_of event config.max_holding_sessions (future_of bars event.signal_date) >>= λ l.
        checked "OutcomeEpisode" validate_episode
          (episode_of copy config (future_of bars event.signal_date) l)

    complete_event-stripped : complete_event strip (stripped strip event) bars config ≡ ok episode
    unfolding complete_event labels_of plan_of stripped completed_with
    complete_event-stripped = ap completed_with stripped_twice ∙ completed

    relabel_cases :
        (b2_ready : Bool)
        → (if not b2_ready
            then ok episode
            else (complete_event strip (stripped strip event) bars config >>= λ corrected.
                raise_if
                  (not (is_empty (changed (frozen_fields episode corrected))))
                  frozen_field_changed
                >> ok corrected))
          ≡ ok episode
    relabel_cases false = refl
    relabel_cases true = rw (complete_event-stripped, nothing_changed episode) refl

    -- A relabelling of an episode on the bars and with the configuration that it was completed with
    -- raises nothing and gives the same episode, for a stripping of texts that is idempotent.
    pub relabel_frozen_event-complete_event :
        relabel_frozen_event strip episode bars config ≡ ok episode
    unfolding relabel_frozen_event
    relabel_frozen_event-complete_event =
        rw (relabel_frozen_event, frozen_event_from_episode-complete_event)
          (relabel_cases (label_is_b2_ready episode.execution_label))
