-- ===== src/Models/Strategy.antt =====
-- models/strategy.py: the intermediate results of the strategy, with their validators.
use a_share_limit_pullback.Base.{
  ℕ, ◌+◌, String, Bool, not, ◌&&◌, Option, List, if◌then◌else◌, length, is_empty, any, ◌==◌,
  contains, distinct,
}
use a_share_limit_pullback.Decimal.{Decimal, nought, one, of_count, ◌/𝔻◌, ◌≤𝔻◌, ◌<𝔻◌}
use a_share_limit_pullback.Dates.{Date}
use a_share_limit_pullback.Models.Enums.{PatternType, ScoreProfile}
use a_share_limit_pullback.Models.Market.{LimitUpRecord}
use a_share_limit_pullback.Models.Snapshots.{AnchorSnapshot}

pub record ContinuousPricePoint : Type 0 where
  pub trade_date : Date
  pub code : String
  pub raw_close : Decimal
  pub continuous_close : Decimal

unfoldable pub validate_point : ContinuousPricePoint → Bool
validate_point p = nought <𝔻 p.raw_close && nought <𝔻 p.continuous_close

pub record KlineMetrics : Type 0 where
  pub body_share : Decimal
  pub close_location : Decimal
  pub upper_shadow_share : Decimal
  pub lower_shadow_share : Decimal
  pub amplitude : Decimal
  pub is_bullish : Bool
  pub is_bearish : Bool
  pub is_doji : Bool
  pub is_small_body : Bool
  pub is_long_bearish : Bool
  pub has_long_lower_shadow : Bool

abbrev is_ratio : Decimal → Bool
is_ratio x = nought ≤𝔻 x && x ≤𝔻 one

unfoldable pub validate_metrics : KlineMetrics → Bool
validate_metrics k =
    is_ratio k.body_share
    && is_ratio k.close_location
    && is_ratio k.upper_shadow_share
    && is_ratio k.lower_shadow_share
    && nought ≤𝔻 k.amplitude

pub record IndicatorPoint : Type 0 where
  pub trade_date : Date
  pub code : String
  pub continuous_close : Decimal
  pub continuous_mas : List (ℕ × Option Decimal)
  pub raw_equivalent_mas : List (ℕ × Option Decimal)
  pub ma_compression : Option Decimal
  pub position_120 : Option Decimal
  pub kline : KlineMetrics

pub record AnchorEvaluation : Type 0 where
  pub snapshot : AnchorSnapshot
  pub profile : ScoreProfile
  pub limit_price : Decimal
  pub is_limit_close : Bool
  pub is_one_word : Bool
  pub is_t_word : Bool
  pub is_first_board : Bool
  pub recent_limit_count : ℕ
  pub recent_limits_non_consecutive : Bool
  pub seal_before_cutoff : Option Bool
  pub pool_record : Option LimitUpRecord

pub record PriceLevelCandidate : Type 0 where
  pub source : String
  pub value : Decimal

unfoldable pub validate_level : PriceLevelCandidate → Bool
validate_level c = nought <𝔻 c.value

pub record PriceCluster : Type 0 where
  pub low : Decimal
  pub high : Decimal
  pub center : Decimal
  pub sources : List String

unfoldable pub validate_cluster : PriceCluster → Bool
validate_cluster c =
    nought <𝔻 c.low
    && nought <𝔻 c.high
    && nought <𝔻 c.center
    && not (is_empty c.sources)
    && c.low ≤𝔻 c.center
    && c.center ≤𝔻 c.high

-- `ConditionScore`, and `ConditionSnapshot`, which has the same fields and validator
pub record ConditionScore : Type 0 where
  pub matched : List String
  pub failed : List String
  pub unavailable : List String

abbrev pub available_count : ConditionScore → ℕ
available_count c = length c.matched + length c.failed

unfoldable pub match_ratio : ConditionScore → Decimal
match_ratio c =
    if available_count c == 0
    then nought
    else of_count (length c.matched) /𝔻 of_count (available_count c)

-- `groups[i] & groups[j]`
abbrev pub overlap : List String → List String → Bool
overlap xs ys = any (contains ys) xs

unfoldable pub validate_condition_ids : ConditionScore → Bool
validate_condition_ids c =
    length (distinct c.matched) == length c.matched
    && length (distinct c.failed) == length c.failed
    && length (distinct c.unavailable) == length c.unavailable
    && not (overlap c.matched c.failed)
    && not (overlap c.matched c.unavailable)
    && not (overlap c.failed c.unavailable)

-- The set of matched patterns by its two memberships, and the dict of scores, which the program
-- always fills at both keys.
pub record PatternEvaluation : Type 0 where
  pub air_refuel : ConditionScore
  pub bearish_pullback : ConditionScore
  pub matched_patterns : List PatternType
  pub primary_pattern : Option PatternType
  pub pattern_scores : PatternType → Decimal
  pub primary_pattern_reason : String
