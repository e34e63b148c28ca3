-- ===== src/Models/Score.antt =====
-- models/signal.py, `ScoreBreakdown`, and what a ranking policy is given. The policy itself is a
-- parameter of the engine (`ranking_fn`).
use a_share_limit_pullback.Base.{
  Bool, true, not, ◌&&◌, String, ◌<>◌, Option, List, [], ◌∷◌, map, length, str_eq, ◌==◌, all,
  contains, distinct, is_empty, if◌then◌else◌, Outcome,
}
use a_share_limit_pullback.Decimal.{Decimal, decimal, nought, ◌≤𝔻◌, ◌<𝔻◌, ◌*𝔻◌, ◌/𝔻◌, quantize, sum}
use a_share_limit_pullback.Models.Config.{StrategyConfig}
use a_share_limit_pullback.Models.Enums.{EventFlag, ScoreProfile, SetupStage}
use a_share_limit_pullback.Models.Market.{DailyBar, LimitUpRecord}
use a_share_limit_pullback.Models.Strategy.{
  AnchorEvaluation, ConditionScore, IndicatorPoint, PatternEvaluation, PriceCluster, overlap,
}

-- a dict keyed by rule identifiers
abbrev pub Rules : Type 0 → Type 0
Rules V = List (String × V)

abbrev pub keys : {V : Type 0} → Rules V → List String
keys d = map (λ e. e.0) d

abbrev pub values : {V : Type 0} → Rules V → List V
values d = map (λ e. e.1) d

pub record ScoreBreakdown : Type 0 where
  pub profile : ScoreProfile
  pub profile_max_score : Decimal
  pub component_scores : Rules Decimal
  pub component_max_scores : Rules Decimal
  pub unavailable_rules : List String
  pub reasons : Rules String
  pub risks : Rules String
  pub quality_flags : List String

unfoldable pub available_score : ScoreBreakdown → Decimal
available_score s = sum (values s.component_scores)

unfoldable pub available_max_score : ScoreBreakdown → Decimal
available_max_score s = sum (values s.component_max_scores)

unfoldable pub normalized_score : ScoreBreakdown → Decimal
normalized_score s = quantize (available_score s /𝔻 available_max_score s *𝔻 decimal 100 0) 2

-- `set(xs).issubset(ys)`
abbrev subset : List String → List String → Bool
subset xs ys = all (contains ys) xs

is_within : Rules Decimal → String × Decimal → Bool
is_within [] score = true
is_within ((name, maximum) ∷ rest) score =
    if str_eq name score.0 then score.1 ≤𝔻 maximum else is_within rest score

unfoldable pub validate_components : ScoreBreakdown → Bool
unfolding is_within
validate_components s =
    nought <𝔻 s.profile_max_score
    && all (λ x. nought ≤𝔻 x) (values s.component_scores)
    && all (λ x. nought <𝔻 x) (values s.component_max_scores)
    && subset (keys s.component_scores) (keys s.component_max_scores)
    && subset (keys s.component_max_scores) (keys s.component_scores)
    && not (is_empty s.component_scores)
    && all (is_within s.component_max_scores) s.component_scores
    && available_max_score s ≤𝔻 s.profile_max_score
    && length (distinct s.unavailable_rules) == length s.unavailable_rules
    && not (overlap s.unavailable_rules (keys s.component_max_scores))
    && not (overlap s.unavailable_rules (keys s.reasons))
    && not (overlap s.unavailable_rules (keys s.risks))
    && all (λ rule. contains s.quality_flags ("MISSING_SCORE_FIELD:" <> rule)) s.unavailable_rules

-- the keyword arguments of `ranking_fn`
pub record RankingFacts : Type 0 where
  pub config : StrategyConfig
  pub profile : ScoreProfile
  pub bars : List DailyBar
  pub indicators : List IndicatorPoint
  pub current : DailyBar
  pub anchor : Option AnchorEvaluation
  pub support : Option PriceCluster
  pub patterns : Option PatternEvaluation
  pub b1_conditions : Option ConditionScore
  pub b2_conditions : Option ConditionScore
  pub setup_stage : SetupStage
  pub limit_pool : List LimitUpRecord
  pub event_flags : List EventFlag

abbrev pub Ranking : Type 0
Ranking = RankingFacts → Outcome ScoreBreakdown

-- `{**risks, key: text}`
unfoldable pub set_risk : String → String → Rules String → Rules String
set_risk key text [] = (key, text) ∷ []
set_risk key text ((k, t) ∷ rest) =
    if str_eq k key then (key, text) ∷ rest else (k, t) ∷ set_risk key text rest
