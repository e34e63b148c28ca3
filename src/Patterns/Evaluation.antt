-- ===== src/Patterns/Evaluation.antt =====
-- strategy/patterns.py, `evaluate_patterns`, and the validator of its result.
use a_share_limit_pullback.Base.{
  Bool, true, not, ◌&&◌, ◌||◌, Option, none, some, List, [], ◌∷◌, ◌++◌, ltb, ◌==◌, if◌then◌else◌,
  keep, first, last?, any, all, length, is_empty, is_none, Outcome, ok, or_raise, stop_iteration,
  index_error, checked, traverse, ◌>>=◌,
}
use a_share_limit_pullback.Conditions.{conditions}
use a_share_limit_pullback.Decimal.{Decimal, decimal, nought, ◌≤𝔻◌, ◌*𝔻◌, quantize}
use a_share_limit_pullback.Dates.{Date}
use a_share_limit_pullback.Features.Bars.{bars_until}
use a_share_limit_pullback.Models.Config.{StrategyConfig}
use a_share_limit_pullback.Models.Enums.{PatternType}
use a_share_limit_pullback.Models.Market.{DailyBar}
use a_share_limit_pullback.Models.Strategy.{
  AnchorEvaluation, ConditionScore, IndicatorPoint, PatternEvaluation, PriceCluster,
  available_count, match_ratio,
}
use a_share_limit_pullback.Patterns.Facts.{air_conditions, bearish_conditions, point_of}
use a_share_limit_pullback.Patterns.Selection.{
  priority, select_primary_pattern, explain_primary_pattern,
}

abbrev pub pattern_eq : PatternType → PatternType → Bool
pattern_eq a b = priority a == priority b

is_listed : Option PatternType → List PatternType → Bool
is_listed none matched = true
is_listed (some p) matched = any (pattern_eq p) matched

-- every pattern has a score here, so that `issubset(self.pattern_scores)` holds
unfoldable pub validate_pattern_selection : PatternEvaluation → Bool
unfolding is_listed
validate_pattern_selection e =
    (is_empty e.matched_patterns || not (is_none e.primary_pattern))
    && (not (is_empty e.matched_patterns) || is_none e.primary_pattern)
    && is_listed e.primary_pattern e.matched_patterns
    && all (λ p. nought ≤𝔻 e.pattern_scores p && e.pattern_scores p ≤𝔻 decimal 100 0)
        (PatternType.air_refuel ∷ PatternType.bearish_pullback ∷ [])

unfoldable pub pattern_score : ConditionScore → Decimal
pattern_score score = quantize (match_ratio score *𝔻 decimal 100 0) 2

abbrev pub scores_of : ConditionScore → ConditionScore → PatternType → Decimal
scores_of air bearish PatternType.air_refuel = pattern_score air
scores_of air bearish PatternType.bearish_pullback = pattern_score bearish

abbrev pub reaches : StrategyConfig → ConditionScore → Bool
reaches config score =
    ltb 0 (available_count score) && config.patterns.minimum_condition_ratio ≤𝔻 match_ratio score

unfoldable pub matched_of : StrategyConfig → ConditionScore → ConditionScore → List PatternType
matched_of config air bearish =
    (if reaches config air then PatternType.air_refuel ∷ [] else [])
    ++ (if reaches config bearish then PatternType.bearish_pullback ∷ [] else [])

-- the returned evaluation, from the two scores
unfoldable pub pattern_evaluation :
    StrategyConfig → ConditionScore → ConditionScore → PatternEvaluation
pattern_evaluation config air bearish =
    let scores = scores_of air bearish in
    let matched = matched_of config air bearish in
    let primary = select_primary_pattern scores matched in
    record {
      air_refuel = air;
      bearish_pullback = bearish;
      matched_patterns = matched;
      primary_pattern = primary;
      pattern_scores = scores;
      primary_pattern_reason = explain_primary_pattern scores matched primary;
    }

abbrev amplitude_of : List IndicatorPoint → DailyBar → Outcome Decimal
amplitude_of indicators bar = do p ← point_of indicators bar.trade_date; ok p.kline.amplitude

unfoldable pub evaluate_patterns :
    List DailyBar
    → List IndicatorPoint
    → AnchorEvaluation
    → Option PriceCluster
    → Date
    → StrategyConfig
    → Outcome PatternEvaluation
evaluate_patterns bars indicators anchor support as_of config = do
  let ordered = bars_until as_of bars
  let anchor_date = anchor.snapshot.anchor_date
  let price = anchor.snapshot.anchor_price
  anchor_bar ← or_raise (first (λ b. b.trade_date == anchor_date) ordered) stop_iteration
  current ← or_raise (last? ordered) index_error
  current_indicator ← point_of indicators current.trade_date
  let post_anchor = keep (λ b. ltb anchor_date b.trade_date) ordered
  amplitudes ←
      if ltb (length post_anchor) 4 then ok [] else traverse (amplitude_of indicators) post_anchor
  air ←
      conditions
        (air_conditions config price anchor_bar current post_anchor current_indicator amplitudes)
  bearish ← conditions (
      bearish_conditions config price anchor_bar current post_anchor support
        current_indicator.kline)
  checked "PatternEvaluation" validate_pattern_selection (pattern_evaluation config air bearish)
