-- ===== src/Tests/Samples.antt =====
-- The configuration of config/strategy.yaml, and a few days of one stock: three flat days, a
-- limit-up, and a pullback on shrinking volume.
use a_share_limit_pullback.Base.{ℕ, ◌+◌, true, false, some, List, [], ◌∷◌, ok}
use a_share_limit_pullback.Decimal.{decimal}
use a_share_limit_pullback.Dates.{Date}
use a_share_limit_pullback.Models.Config.{StrategyConfig}
use a_share_limit_pullback.Models.Market.{DailyBar}
use a_share_limit_pullback.Models.Score.{Ranking}

abbrev pub config : StrategyConfig
config = record {
  strategy_version = "0.1.0";
  anchor = record {
    limit_rate = decimal 10 2;
    price_tick = decimal 1 2;
    lookback_trade_days = 10;
    recent_limit_window = 7;
    recent_limit_count_min = 1;
    recent_limit_count_max = 2;
    first_seal_cutoff = 52200;
    require_non_consecutive = true;
    require_first_board = true;
    require_positive_volume = true;
    require_positive_amount = true;
    limit_price_tolerance = decimal 1 2;
  };
  indicators = record {
    moving_average_windows = 5 ∷ 10 ∷ 20 ∷ 30 ∷ 120 ∷ 250 ∷ [];
    position_window = 120;
    kline = record {
      doji_body_share_max = decimal 10 2;
      small_body_share_max = decimal 40 2;
      long_body_share_min = decimal 60 2;
      long_shadow_share_min = decimal 40 2;
    };
  };
  patterns = record {
    minimum_condition_ratio = decimal 60 2;
    air_refuel = record {
      minimum_close_to_anchor = decimal 98 2;
      current_close_to_anchor_minimum = decimal 100 2;
      recent_volume_days = 3;
      recent_volume_to_anchor_maximum = decimal 80 2;
      amplitude_contraction_maximum = decimal 90 2;
      ma_distance_maximum = decimal 2 2;
    };
    bearish_pullback = record {
      require_bearish_bar = true;
      support_touch_tolerance = decimal 2 2;
      volume_contraction_maximum = decimal 85 2;
    };
  };
  support = record {
    cluster_distance = decimal 2 2;
    invalid_buffer = decimal 5 3;
    max_above_reference_close = decimal 2 3;
    platform_lookback_days = 20;
    moving_average_sources = 5 ∷ 10 ∷ 20 ∷ 30 ∷ 120 ∷ 250 ∷ [];
    prefer_anchor_or_ma10 = true;
  };
  resistance = record {
    cluster_distance = decimal 2 2;
    left_high_lookback_days = 60;
    recent_high_lookback_days = 20;
    long_recent_high_lookback_days = 60;
    first_post_anchor_window_days = 3;
  };
  b1 = record {
    days_after_anchor_min = 1;
    days_after_anchor_max = 7;
    optimal_days_min = 2;
    optimal_days_max = 5;
    close_to_anchor_min = decimal 96 2;
    close_to_anchor_max = decimal 108 2;
    volume_to_anchor_max = decimal 85 2;
    recent_volume_days = 3;
    recent_volume_to_post_anchor_max = decimal 80 2;
    minimum_condition_ratio = decimal 60 2;
    prep_support_distance_max = decimal 4 2;
    prep_volume_to_anchor_max = decimal 100 2;
    prep_volume_to_post_anchor_max = decimal 90 2;
  };
  b2 = record {
    daily_return_min = decimal 2 2;
    daily_return_max = decimal 7 2;
    close_location_min = decimal 65 2;
    volume_expansion_min = decimal 110 2;
    volume_expansion_max = decimal 180 2;
    trigger_buffer = decimal 1 3;
    platform_lookback_days = 2;
    skip_gap_open = decimal 3 2;
    minimum_condition_ratio = decimal 60 2;
  };
  entry_room = record {
    thin_headroom_max = decimal 5 2;
    sufficient_headroom_min = decimal 5 2;
    minimum_risk_reward = decimal 150 2;
  };
  events = record {
    near_s1_distance = decimal 2 2;
    s1_breakout_close_buffer = decimal 0 2;
    support_warning = record {
      close_to_support_low_max = decimal 1 2;
      close_to_invalid_max = decimal 15 3;
      abnormal_volume_ratio_min = decimal 150 2;
      volume_lookback_days = 5;
      consecutive_test_days = 3;
      test_distance_max = decimal 1 2;
    };
    s2 = record {
      close_off_high_min = decimal 3 2;
      upper_shadow_share_min = decimal 40 2;
      volume_to_ma5_min = decimal 150 2;
      minimum_condition_ratio = decimal 60 2;
    };
  };
  invalidation = record {
    support_break_buffer = decimal 5 3;
    volume_expansion_min = decimal 150 2;
    consecutive_distribution_days = 2;
    recovery_days = 1;
  };
  scoring = record { normalized_score_quantum = decimal 1 2 };
  quality = record {
    missing_score_flag_prefix = "MISSING_SCORE_FIELD:";
    invalid_preclose_flag = "INVALID_PRECLOSE";
    inferred_anchor_flag = "INFERRED_LIMIT_ANCHOR";
    minimum_score_coverage = decimal 70 2;
  };
}

-- prices in cents, volume in lots
abbrev pub bar : Date → ℕ → ℕ → ℕ → ℕ → ℕ → ℕ → DailyBar
bar day open_price high low close preclose volume = record {
  trade_date = day;
  code = "600468";
  open_price = decimal open_price 2;
  high = decimal high 2;
  low = decimal low 2;
  close = decimal close 2;
  preclose = decimal preclose 2;
  volume = decimal volume 0;
  amount = decimal (volume + volume) 0;
  trade_status = true;
  is_st = some false;
}

abbrev pub first_day : Date
first_day = 739800

abbrev pub history : List DailyBar
history =
    bar 739800 990 1200 985 1000 990 1000
    ∷ bar 739801 1000 1010 990 1000 1000 1000
    ∷ bar 739802 1000 1010 990 1000 1000 1000
    ∷ bar 739803 1000 1100 995 1100 1000 4000
    ∷ []

abbrev pub pullback : DailyBar
pullback = bar 739804 1100 1115 1090 1105 1100 2000

abbrev pub to_watch : List DailyBar
to_watch =
    bar 739800 990 1200 985 1000 990 1000
    ∷ bar 739801 1000 1010 990 1000 1000 1000
    ∷ bar 739802 1000 1010 990 1000 1000 1000
    ∷ bar 739803 1000 1100 995 1100 1000 4000
    ∷ pullback
    ∷ []

-- a policy that gives every setup three of four points
abbrev pub flat_ranking : Ranking
flat_ranking facts = ok (record {
  profile = facts.profile;
  profile_max_score = decimal 4 0;
  component_scores = ("normal_liquidity", decimal 3 0) ∷ [];
  component_max_scores = ("normal_liquidity", decimal 4 0) ∷ [];
  unavailable_rules = [];
  reasons = [];
  risks = [];
  quality_flags = [];
})
