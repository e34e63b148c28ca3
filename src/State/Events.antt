-- ===== src/State/Events.antt =====
-- state/engine_helpers.py, `_evaluate_event_flags`: the warnings about a frozen support and the
-- events at a frozen target S1.
pub mod Flags
use a_share_limit_pullback.Base.{
  Bool, false, not, ◌&&◌, String, ◌<>◌, Option, none, some, List, [], ◌∷◌, ◌++◌, map, ◌==◌,
  if◌then◌else◌, length, but_last, last_n, last?, keep, all, any, is_empty, contains, sorted,
  distinct, Outcome, ok, or_raise, index_error, ◌>>=◌,
}
use a_share_limit_pullback.Conditions.{Results, conditions}
use a_share_limit_pullback.Decimal.{Decimal, one, ◌≤𝔻◌, ◌<𝔻◌, ◌+𝔻◌, ◌-𝔻◌, ◌*𝔻◌, ◌/𝔻◌, mean}
use a_share_limit_pullback.Models.Config.{StrategyConfig}
use a_share_limit_pullback.Models.Enums.{SetupStage, EventFlag, flag_eq, is_invalid}
use a_share_limit_pullback.Models.Market.{DailyBar}
use a_share_limit_pullback.Models.Strategy.{
  ConditionScore, IndicatorPoint, KlineMetrics, PriceCluster, match_ratio,
}
use a_share_limit_pullback.State.Confirm.{volumes}

-- The calls of `add_reason`, in order. A flag is set exactly when it has a reason, so the set of
-- flags and the dict of their reasons are both read off this list.
abbrev pub Added : Type 0
Added = List (EventFlag × String)

abbrev add_if : Bool → EventFlag → String → Added
add_if test flag reason = if test then (flag, reason) ∷ [] else []

module _ (config : StrategyConfig) (ordered : List DailyBar) (current : DailyBar) where
  -- `support.low * (ONE - d) <= low <= support.low * (ONE + d)`
  tests_support : PriceCluster → DailyBar → Bool
  tests_support support bar =
      let d = config.events.support_warning.test_distance_max in
      support.low *𝔻 (one -𝔻 d) ≤𝔻 bar.low && bar.low ≤𝔻 support.low *𝔻 (one +𝔻 d)

  close_near_support_low : PriceCluster → Bool
  close_near_support_low support =
      support.low ≤𝔻 current.close
      && (current.close -𝔻 support.low) /𝔻 support.low
        ≤𝔻 config.events.support_warning.close_to_support_low_max

  close_near_invalid : Option Decimal → Bool
  close_near_invalid none = false
  close_near_invalid (some invalid_price) =
      invalid_price <𝔻 current.close
      && (current.close -𝔻 invalid_price) /𝔻 invalid_price
        ≤𝔻 config.events.support_warning.close_to_invalid_max

  abnormal_volume_near_support : PriceCluster → Bool
  unfolding tests_support
  abnormal_volume_near_support support =
      let window =
        volumes (last_n config.events.support_warning.volume_lookback_days (but_last ordered)) in
      not (is_empty window)
      && tests_support support current
      && mean window *𝔻 config.events.support_warning.abnormal_volume_ratio_min ≤𝔻 current.volume

  consecutive_support_tests : PriceCluster → Bool
  unfolding tests_support
  consecutive_support_tests support =
      let days = config.events.support_warning.consecutive_test_days in
      length (last_n days ordered) == days && all (tests_support support) (last_n days ordered)

  unfoldable pub support_warnings : Option PriceCluster → Option Decimal → Added
  unfolding close_near_support_low close_near_invalid abnormal_volume_near_support
      consecutive_support_tests
  support_warnings none invalid_price = []
  support_warnings (some support) invalid_price =
      let warn = λ (test : Bool) (reason : String). add_if test EventFlag.support_warning reason in
      warn (close_near_support_low support) "CLOSE_NEAR_SUPPORT_LOW"
      ++ warn (close_near_invalid invalid_price) "CLOSE_NEAR_INITIAL_INVALID_PRICE"
      ++ warn (current.low <𝔻 support.low && support.low ≤𝔻 current.close)
          "INTRADAY_SUPPORT_BREAK_RECOVERED"
      ++ warn (abnormal_volume_near_support support) "ABNORMAL_VOLUME_NEAR_SUPPORT"
      ++ warn (consecutive_support_tests support) "CONSECUTIVE_SUPPORT_TESTS"

  unfoldable pub s1_position : PriceCluster → Added
  s1_position s1 =
      if s1.high *𝔻 (one +𝔻 config.events.s1_breakout_close_buffer) ≤𝔻 current.close
      then (EventFlag.s1_breakout, "CLOSE_ABOVE_S1_BREAKOUT_THRESHOLD") ∷ []
      else add_if (s1.low *𝔻 (one -𝔻 config.events.near_s1_distance) ≤𝔻 current.high)
          EventFlag.near_s1 "HIGH_WITHIN_NEAR_S1_DISTANCE"

  volume_expansion : Option Bool
  volume_expansion =
      let before = volumes (last_n 5 (but_last ordered)) in
      if is_empty before
      then none
      else some (mean before *𝔻 config.events.s2.volume_to_ma5_min ≤𝔻 current.volume)

  unfoldable pub s2_results : PriceCluster → KlineMetrics → Results
  unfolding volume_expansion
  s2_results s1 kline =
      ("touch_s1", some (s1.low ≤𝔻 current.high))
      ∷ (
        "close_off_high",
        some (
            config.events.s2.close_off_high_min ≤𝔻 (current.high -𝔻 current.close) /𝔻 current.high),
      )
      ∷ ("upper_shadow", some (config.events.s2.upper_shadow_share_min ≤𝔻 kline.upper_shadow_share))
      ∷ ("volume_expansion", volume_expansion)
      ∷ ("failed_to_hold_s1", some (current.close <𝔻 s1.high))
      ∷ []

  unfoldable pub s2_exhaustion : ConditionScore → Added
  s2_exhaustion s2 =
      if contains s2.matched "touch_s1"
        && config.events.s2.minimum_condition_ratio ≤𝔻 match_ratio s2
      then map (λ name. (EventFlag.s2_exhausted, "S2_MATCHED:" <> name)) s2.matched
      else []

  unfoldable pub s1_events : List IndicatorPoint → Option PriceCluster → Outcome Added
  s1_events indicators none = ok []
  s1_events indicators (some s1) = do
    point ← or_raise (last? indicators) index_error
    s2 ← conditions (s2_results s1 point.kline)
    ok (s1_position s1 ++ s2_exhaustion s2)

abbrev pub added_flag : EventFlag → Added → Bool
added_flag flag = any (λ e. flag_eq flag e.0)

-- the filters at the end: an INVALID setup keeps S2_EXHAUSTED only, and S1_BREAKOUT drops NEAR_S1
unfoldable pub settle : SetupStage → Added → Added
settle stage added =
    let kept =
      if is_invalid stage then keep (λ e. flag_eq EventFlag.s2_exhausted e.0) added else added in
    if added_flag EventFlag.s1_breakout kept
    then keep (λ e. not (flag_eq EventFlag.near_s1 e.0)) kept
    else kept

-- the flags in the order of their texts, each with its sorted reasons
abbrev pub EventReasons : Type 0
EventReasons = List (EventFlag × List String)

reasons_for : EventFlag → Added → EventReasons
reasons_for flag added =
    if added_flag flag added
    then (flag, sorted (distinct (map (λ e. e.1) (keep (λ e. flag_eq flag e.0) added)))) ∷ []
    else []

unfoldable pub event_reasons : Added → EventReasons
unfolding reasons_for
event_reasons added =
    reasons_for EventFlag.near_s1 added
    ++ reasons_for EventFlag.s1_breakout added
    ++ reasons_for EventFlag.s2_exhausted added
    ++ reasons_for EventFlag.support_warning added

unfoldable pub evaluate_event_flags :
    List DailyBar
    → List IndicatorPoint
    → DailyBar
    → Option PriceCluster
    → Option Decimal
    → Option PriceCluster
    → SetupStage
    → StrategyConfig
    → Outcome (List EventFlag × EventReasons)
evaluate_event_flags ordered indicators current support invalid_price s1 stage config = do
  at_s1 ← s1_events config ordered current indicators s1
  let added = settle stage (support_warnings config ordered current support invalid_price ++ at_s1)
  ok (map (λ e. e.0) (event_reasons added), event_reasons added)
