-- ===== src/Study/Stats.antt =====
-- outcome.py: the statistics of a cohort of episodes (`_stats`) and its groups (`_group_bucket`,
-- `_days_bucket`, `_group_stats`).
use a_share_limit_pullback.Base.{
  ℕ, ◌+◌, ◌-◌, ◌/◌, ◌%◌, Bool, false, not, ◌&&◌, ◌||◌, String, ◌<>◌, str_eq, Option, none, some,
  List, [], ◌∷◌, ◌++◌, map, leb, ◌==◌, if◌then◌else◌, length, keep, get_elem?, contains, sorted,
  distinct, sort_by, is_some,
}
use a_share_limit_pullback.Dates.{show}
use a_share_limit_pullback.Decimal.{
  Decimal, decimal, nought, ◌≤𝔻◌, ◌<𝔻◌, ◌+𝔻◌, ◌/𝔻◌, mean, of_count,
}
use a_share_limit_pullback.Models.Labels.{
  is_ambiguous, is_cancelled, is_censored, is_filled, is_loss, is_no_fill, is_timeout, is_win,
}
use a_share_limit_pullback.Models.Outcome.{OutcomeEpisode, OutcomeStats}
use a_share_limit_pullback.Study.Barriers.{quantized}

-- `INELIGIBLE_EXECUTION_REASONS`
abbrev pub ineligible_execution_reasons : List String
ineligible_execution_reasons =
    "NON_ACTIONABLE_STRUCTURAL_EVENT" ∷ "REWARD_NON_POSITIVE_AT_TRIGGER"
    ∷ "REWARD_NON_POSITIVE_AT_ENTRY" ∷ []

abbrev pub is_ineligible : Option String → Bool
is_ineligible none = false
is_ineligible (some reason) = contains ineligible_execution_reasons reason

abbrev pub is_eligible_episode : OutcomeEpisode → Bool
is_eligible_episode e =
    is_some e.preferred_entry
    && is_some e.invalid_price
    && is_some e.s1_price
    && not (is_ineligible e.eligibility_reason)

-- `[f(x) for x in l if f(x) is not None]`
abbrev pub known_values : {A : Type 0} → List (Option A) → List A
known_values [] = []
known_values (none ∷ xs) = known_values xs
known_values (some x ∷ xs) = x ∷ known_values xs

unfoldable pub total_days : List OutcomeEpisode → ℕ
total_days [] = 0
total_days (e ∷ es) = e.raw_signal_days + total_days es

unfoldable pub ratio : ℕ → ℕ → Decimal
ratio numerator denominator =
    if denominator == 0 then nought else quantized (of_count numerator /𝔻 of_count denominator)

unfoldable pub mean_of : List Decimal → Option Decimal
mean_of [] = none
mean_of (x ∷ xs) = some (quantized (mean (x ∷ xs)))

-- the two values around the middle, of which an odd number of values has one
abbrev middle_of : ℕ → Option Decimal → Option Decimal → Option Decimal
middle_of n below none = none
middle_of n none (some upper) = some (quantized upper)
middle_of n (some lower) (some upper) =
    if n % 2 == 0 then some (quantized ((lower +𝔻 upper) /𝔻 of_count 2)) else some (quantized upper)

unfoldable pub median : List Decimal → Option Decimal
median values =
    let ordered = sort_by (λ a b. a ≤𝔻 b) values in
    let middle = length ordered / 2 in
    middle_of (length ordered) (get_elem? ordered (middle - 1)) (get_elem? ordered middle)

unfoldable pub cohort : Bool → List OutcomeEpisode → List OutcomeEpisode
cohort actionable_only events = keep (λ e. not actionable_only || e.is_entry_candidate) events

abbrev r_multiples : List OutcomeEpisode → List Decimal
r_multiples events = known_values (map (λ e. e.r_multiple) events)

unfoldable pub stats_of : List OutcomeEpisode → OutcomeStats
unfolding total_days ratio mean_of median
stats_of events =
    let eligible_events = keep is_eligible_episode events in
    let filled = keep (λ e. is_filled e.fill_status) events in
    let wins = keep (λ e. is_win e.outcome) events in
    let losses = keep (λ e. is_loss e.outcome) events in
    let ambiguous = keep (λ e. is_ambiguous e.outcome) events in
    let timeout = keep (λ e. is_timeout e.outcome) events in
    let strict_r = r_multiples (wins ++ losses) in
    let conservative_r =
      known_values (map (λ e. e.conservative_r_multiple) (wins ++ losses ++ ambiguous)) in
    record {
      episodes = length events;
      raw_signal_days = total_days events;
      eligible = length eligible_events;
      no_fill = length (keep (λ e. is_no_fill e.outcome) events);
      cancel_gap_invalid = length (keep (λ e. is_cancelled e.outcome) events);
      filled = length filled;
      resolved = length wins + length losses + length ambiguous + length timeout;
      wins = length wins;
      losses = length losses;
      ambiguous = length ambiguous;
      timeout = length timeout;
      censored = length (keep (λ e. is_censored e.outcome) events);
      fill_rate = ratio (length filled) (length eligible_events);
      strict_win_rate = ratio (length wins) (length wins + length losses);
      conservative_win_rate = ratio (length wins) (length wins + length losses + length ambiguous);
      strict_resolved = length wins + length losses;
      conservative_resolved = length wins + length losses + length ambiguous;
      strict_resolved_expectancy_r = mean_of strict_r;
      conservative_resolved_expectancy_r = mean_of conservative_r;
      strict_average_r = mean_of strict_r;
      conservative_average_r = mean_of conservative_r;
      average_win_r = mean_of (r_multiples wins);
      average_loss_r = mean_of (r_multiples losses);
      average_r = mean_of strict_r;
      expectancy_r = mean_of strict_r;
      median_r = median strict_r;
      median_mfe = median (known_values (map (λ e. e.mfe_pct) filled));
      median_mae = median (known_values (map (λ e. e.mae_pct) filled));
      median_holding_sessions =
          median (map of_count (known_values (map (λ e. e.holding_sessions_to_resolution) filled)));
    }

unfoldable pub stats : List OutcomeEpisode → Bool → OutcomeStats
unfolding stats_of cohort
stats events actionable_only = stats_of (cohort actionable_only events)

unfoldable pub group_bucket : Option Decimal → String → String
group_bucket none prefix = prefix <> "UNKNOWN"
group_bucket (some value) prefix =
    if value <𝔻 decimal 60 0
    then prefix <> "<60"
    else if value <𝔻 decimal 70 0
    then prefix <> "60-70"
    else if value <𝔻 decimal 80 0
    then prefix <> "70-80"
    else prefix <> ">=80"

unfoldable pub days_bucket : Option ℕ → String
unfolding show
days_bucket none = "UNKNOWN"
days_bucket (some days) = if leb days 4 then "D+" <> show days else "D+5+"

-- the expected keys first, then the other keys that occur
unfoldable pub group_keys :
    (OutcomeEpisode → String) → List OutcomeEpisode → List String → List String
unfolding sorted distinct
group_keys key events expected_keys =
    expected_keys ++ sorted (keep (λ k. not (contains expected_keys k)) (distinct (map key events)))

unfoldable pub group_stats :
    List OutcomeEpisode
    → (OutcomeEpisode → String)
    → Bool
    → List String
    → List (String × OutcomeStats)
unfolding group_keys cohort stats_of
group_stats events key actionable_only expected_keys =
    let counted = cohort actionable_only events in
    map (λ k. (k, stats_of (keep (λ e. str_eq (key e) k) counted)))
      (group_keys key counted expected_keys)
