-- ===== src/Models/Config.antt =====
-- models/config.py: the sections of `StrategyConfig` that the strategy reads, with the validators
-- of each. `universe`, `price_system` and the score profiles, which only the ranking reads, are
-- left out; so are the fields of `B1Config` that only the trade plan reads.
use a_share_limit_pullback.Base.{ℕ, String, Bool, List}
use a_share_limit_pullback.Decimal.{Decimal}
use a_share_limit_pullback.Dates.{Time}

pub record AnchorConfig : Type 0 where
  pub limit_rate : Decimal
  pub price_tick : Decimal
  pub lookback_trade_days : ℕ
  pub recent_limit_window : ℕ
  pub recent_limit_count_min : ℕ
  pub recent_limit_count_max : ℕ
  pub first_seal_cutoff : Time
  pub require_non_consecutive : Bool
  pub require_first_board : Bool
  pub require_positive_volume : Bool
  pub require_positive_amount : Bool
  pub limit_price_tolerance : Decimal

pub record KlineConfig : Type 0 where
  pub doji_body_share_max : Decimal
  pub small_body_share_max : Decimal
  pub long_body_share_min : Decimal
  pub long_shadow_share_min : Decimal

pub record IndicatorsConfig : Type 0 where
  pub moving_average_windows : List ℕ
  pub position_window : ℕ
  pub kline : KlineConfig

pub record AirRefuelConfig : Type 0 where
  pub minimum_close_to_anchor : Decimal
  pub current_close_to_anchor_minimum : Decimal
  pub recent_volume_days : ℕ
  pub recent_volume_to_anchor_maximum : Decimal
  pub amplitude_contraction_maximum : Decimal
  pub ma_distance_maximum : Decimal

pub record BearishPullbackConfig : Type 0 where
  pub require_bearish_bar : Bool
  pub support_touch_tolerance : Decimal
  pub volume_contraction_maximum : Decimal

pub record PatternsConfig : Type 0 where
  pub minimum_condition_ratio : Decimal
  pub air_refuel : AirRefuelConfig
  pub bearish_pullback : BearishPullbackConfig

pub record SupportConfig : Type 0 where
  pub cluster_distance : Decimal
  pub invalid_buffer : Decimal
  pub max_above_reference_close : Decimal
  pub platform_lookback_days : ℕ
  pub moving_average_sources : List ℕ
  pub prefer_anchor_or_ma10 : Bool

pub record ResistanceConfig : Type 0 where
  pub cluster_distance : Decimal
  pub left_high_lookback_days : ℕ
  pub recent_high_lookback_days : ℕ
  pub long_recent_high_lookback_days : ℕ
  pub first_post_anchor_window_days : ℕ

pub record B1Config : Type 0 where
  pub days_after_anchor_min : ℕ
  pub days_after_anchor_max : ℕ
  pub optimal_days_min : ℕ
  pub optimal_days_max : ℕ
  pub close_to_anchor_min : Decimal
  pub close_to_anchor_max : Decimal
  pub volume_to_anchor_max : Decimal
  pub recent_volume_days : ℕ
  pub recent_volume_to_post_anchor_max : Decimal
  pub minimum_condition_ratio : Decimal
  pub prep_support_distance_max : Decimal
  pub prep_volume_to_anchor_max : Decimal
  pub prep_volume_to_post_anchor_max : Decimal

pub record B2Config : Type 0 where
  pub daily_return_min : Decimal
  pub daily_return_max : Decimal
  pub close_location_min : Decimal
  pub volume_expansion_min : Decimal
  pub volume_expansion_max : Decimal
  pub trigger_buffer : Decimal
  pub platform_lookback_days : ℕ
  pub skip_gap_open : Decimal
  pub minimum_condition_ratio : Decimal

pub record EntryRoomConfig : Type 0 where
  pub thin_headroom_max : Decimal
  pub sufficient_headroom_min : Decimal
  pub minimum_risk_reward : Decimal

pub record S2Config : Type 0 where
  pub close_off_high_min : Decimal
  pub upper_shadow_share_min : Decimal
  pub volume_to_ma5_min : Decimal
  pub minimum_condition_ratio : Decimal

pub record SupportWarningConfig : Type 0 where
  pub close_to_support_low_max : Decimal
  pub close_to_invalid_max : Decimal
  pub abnormal_volume_ratio_min : Decimal
  pub volume_lookback_days : ℕ
  pub consecutive_test_days : ℕ
  pub test_distance_max : Decimal

pub record EventsConfig : Type 0 where
  pub near_s1_distance : Decimal
  pub s1_breakout_close_buffer : Decimal
  pub support_warning : SupportWarningConfig
  pub s2 : S2Config

pub record InvalidationConfig : Type 0 where
  pub support_break_buffer : Decimal
  pub volume_expansion_min : Decimal
  pub consecutive_distribution_days : ℕ
  pub recovery_days : ℕ

pub record ScoringConfig : Type 0 where
  pub normalized_score_quantum : Decimal

pub record QualityConfig : Type 0 where
  pub missing_score_flag_prefix : String
  pub invalid_preclose_flag : String
  pub inferred_anchor_flag : String
  pub minimum_score_coverage : Decimal

pub record StrategyConfig : Type 0 where
  pub strategy_version : String
  pub anchor : AnchorConfig
  pub indicators : IndicatorsConfig
  pub patterns : PatternsConfig
  pub support : SupportConfig
  pub resistance : ResistanceConfig
  pub b1 : B1Config
  pub b2 : B2Config
  pub entry_room : EntryRoomConfig
  pub events : EventsConfig
  pub invalidation : InvalidationConfig
  pub scoring : ScoringConfig
  pub quality : QualityConfig
