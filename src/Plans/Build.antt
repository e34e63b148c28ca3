-- ===== src/Plans/Build.antt =====
-- trade_plan.py, `build_trade_plan`.
use a_share_limit_pullback.Base.{
  Bool, false, not, ◌&&◌, ◌||◌, String, Option, none, some, List, [], leb, ◌==◌, if◌then◌else◌,
  keep, last?, Outcome, or_raise, raise_if, checked, plan_of_other_day, no_bar_on_plan_date, ◌>>=◌,
  ◌>>◌,
}
use mathlib.Core.Option
use a_share_limit_pullback.Dates.{Date}
use a_share_limit_pullback.Decimal.{Decimal, one, ◌<𝔻◌, ◌+𝔻◌, ◌-𝔻◌, ◌*𝔻◌}
use a_share_limit_pullback.Features.Bars.{bars_until}
use a_share_limit_pullback.Models.Config.{StrategyConfig}
use a_share_limit_pullback.Models.Enums.{SetupStage}
use a_share_limit_pullback.Models.Labels.{ExecutionLabel, label_is_b1_prep}
use a_share_limit_pullback.Models.Market.{DailyBar, LimitUpRecord}
use a_share_limit_pullback.Models.Score.{normalized_score}
use a_share_limit_pullback.Models.Signal.{StrategySignal, is_entry_candidate}
use a_share_limit_pullback.Models.Strategy.{PriceCluster}
use a_share_limit_pullback.Models.TradePlan.{
  TradePlan, TradePlanConfig, label_is_watch_only, validate_plan,
}
use a_share_limit_pullback.Plans.Conditions.{
  because, cancel_conditions, preferred_in_buy_zone, prep_conditions, risk_reward_fields,
}
use a_share_limit_pullback.Plans.Facts.{
  days_since_anchor, distance_to_support_pct, execution_config, next_open_session, plan_support,
  prep_volume_metrics,
}
use a_share_limit_pullback.State.Identity.{quantize_price}

abbrev pub label_at : StrategySignal → Bool → SetupStage → ExecutionLabel × Bool
label_at signal prep_ok SetupStage.watch_pullback =
    (if prep_ok then ExecutionLabel.b1_prep else ExecutionLabel.watch_only, prep_ok)
label_at signal prep_ok SetupStage.b1_ready = (ExecutionLabel.b1_ready, is_entry_candidate signal)
label_at signal prep_ok SetupStage.b2_ready = (ExecutionLabel.b2_ready, is_entry_candidate signal)
label_at signal prep_ok SetupStage.b2_confirmed =
    (ExecutionLabel.b2_confirmed, is_entry_candidate signal)
label_at signal prep_ok _ = (ExecutionLabel.watch_only, false)

-- the label, and whether the signal allows the plan, before the close is compared with the zone
unfoldable pub label_of : StrategySignal → Bool → ExecutionLabel × Bool
unfolding is_entry_candidate
label_of signal prep_ok = label_at signal prep_ok signal.setup_stage

-- The prices of a plan.
pub record Prices : Type 0 where
  pub zone_low : Option Decimal
  pub zone_high : Option Decimal
  pub preferred : Option Decimal
  pub above_zone : Bool
  pub invalid : Option Decimal
  pub s1 : Option Decimal
  pub trigger : Option Decimal

-- `support_high is not None and current.close > support_high + config.anchor.price_tick`
abbrev is_above : StrategyConfig → DailyBar → Option Decimal → Bool
is_above config current none = false
is_above config current (some high) = high +𝔻 config.anchor.price_tick <𝔻 current.close

abbrev s1_of : StrategySignal → Option Decimal
s1_of signal = Option.map (λ s. s.s1_low) signal.target_s1

abbrev frozen_low : StrategySignal → Option Decimal
frozen_low signal = Option.map (λ s. s.support_low) signal.support

abbrev frozen_high : StrategySignal → Option Decimal
frozen_high signal = Option.map (λ s. s.support_high) signal.support

abbrev pub prep_prices : StrategyConfig → DailyBar → Option PriceCluster → Prices
prep_prices config current none = record {
  zone_low = none;
  zone_high = none;
  preferred = none;
  above_zone = false;
  invalid = none;
  s1 = none;
  trigger = none;
}
prep_prices config current (some support) = record {
  zone_low = some support.low;
  zone_high = some support.high;
  preferred = preferred_in_buy_zone (some support.center) (some support.low) (some support.high);
  above_zone = is_above config current (some support.high);
  invalid = some (quantize_price (support.low *𝔻 (one -𝔻 config.support.invalid_buffer)) config);
  s1 = none;
  trigger = none;
}

abbrev b1_prices : StrategyConfig → DailyBar → StrategySignal → Prices
b1_prices config current signal = record {
  zone_low = frozen_low signal;
  zone_high = frozen_high signal;
  preferred =
      preferred_in_buy_zone signal.entry_reference_price (frozen_low signal) (frozen_high signal);
  above_zone = is_above config current (frozen_high signal);
  invalid = signal.invalid_price;
  s1 = s1_of signal;
  trigger = none;
}

abbrev trigger_of : StrategySignal → Option Decimal
trigger_of signal = Option.map (λ t. t.trigger_price) signal.b2_trigger

abbrev b2_prices : StrategySignal → Option Decimal → Prices
b2_prices signal preferred = record {
  zone_low = frozen_low signal;
  zone_high = frozen_high signal;
  preferred = preferred;
  above_zone = false;
  invalid = signal.invalid_price;
  s1 = s1_of signal;
  trigger = trigger_of signal;
}

abbrev watch_prices : StrategySignal → Option PriceCluster → Prices
watch_prices signal support = record {
  zone_low = Option.map (λ c. c.low) support;
  zone_high = Option.map (λ c. c.high) support;
  preferred = none;
  above_zone = false;
  invalid = signal.invalid_price;
  s1 = s1_of signal;
  trigger = none;
}

abbrev pub stage_prices :
    StrategyConfig → DailyBar → StrategySignal → Option PriceCluster → SetupStage → Prices
stage_prices config current signal support SetupStage.b1_ready = b1_prices config current signal
stage_prices config current signal support SetupStage.b2_ready =
    b2_prices signal (trigger_of signal)
stage_prices config current signal support SetupStage.b2_confirmed =
    b2_prices signal (some current.close)
stage_prices config current signal support _ = watch_prices signal support

unfoldable pub prices_of :
    StrategyConfig → DailyBar → StrategySignal → Option PriceCluster → ExecutionLabel → Prices
prices_of config current signal support label =
    if label_is_b1_prep label
    then prep_prices config current support
    else stage_prices config current signal support signal.setup_stage

abbrev support_price_of : StrategySignal → Option PriceCluster → ExecutionLabel → Option Decimal
support_price_of signal support label =
    let frozen = Option.map (λ s. s.support_center) signal.support in
    if label_is_b1_prep label
    then elim support [ some cluster ↦ some cluster.center | none ↦ frozen ]
    else frozen

-- The provenance of a plan.
pub record Provenance : Type 0 where
  pub snapshot_id : String
  pub strategy_commit : String
  pub config_hash : String
  pub execution_config_hash : Option String

unfoldable pub plan_fields :
    StrategySignal
    → StrategyConfig
    → TradePlanConfig
    → Provenance
    → Date
    → Option Date
    → List DailyBar
    → DailyBar
    → Option PriceCluster
    → Bool × List String
    → TradePlan
unfolding label_of prices_of
plan_fields signal config plan_config provenance plan_date next_date bars current support prep =
    let (label, allowed) = label_of signal prep.0 in
    let prices = prices_of config current signal support label in
    let rewards = risk_reward_fields prices.preferred prices.invalid prices.s1 in
    record {
      code = signal.code;
      plan_date = plan_date;
      for_trade_date = next_date;
      setup_stage = signal.setup_stage;
      execution_label = label;
      anchor_date = Option.map (λ a. a.anchor_date) signal.anchor;
      anchor_price = Option.map (λ a. a.anchor_price) signal.anchor;
      days_since_anchor = days_since_anchor bars signal;
      current_close = some current.close;
      buy_zone_low = prices.zone_low;
      buy_zone_high = prices.zone_high;
      preferred_entry = prices.preferred;
      trigger_price = prices.trigger;
      support_price = support_price_of signal support label;
      invalid_price = prices.invalid;
      s1_price = prices.s1;
      s2_price = none;
      entry_room_state = signal.entry_room_state;
      distance_to_support_pct = distance_to_support_pct current support;
      volume_contraction = (prep_volume_metrics bars current signal config plan_config).1;
      risk_pct = rewards.0;
      reward_pct = rewards.1;
      rr = rewards.2;
      setup_quality_score = normalized_score signal.score;
      entry_quality_score = signal.entry_quality_score;
      data_quality = signal.data_quality;
      quality_flags = signal.quality_flags;
      is_actionable = allowed && not prices.above_zone;
      cancel_conditions =
          cancel_conditions signal
            (if label_is_b1_prep label || label_is_watch_only label then prep.1 else [])
            (because prices.above_zone "PRICE_ABOVE_BUY_ZONE");
      snapshot_id = provenance.snapshot_id;
      strategy_commit = provenance.strategy_commit;
      config_hash = provenance.config_hash;
      execution_config_hash = provenance.execution_config_hash;
    }

-- `for_trade_date`, or the next session of the calendar
abbrev resolved_date : Date → Option Date → Option (List Date) → Option Date
resolved_date plan_date (some given) calendar = some given
resolved_date plan_date none calendar = next_open_session plan_date calendar

unfoldable pub build_trade_plan :
    StrategySignal
    → List DailyBar
    → List LimitUpRecord
    → StrategyConfig
    → Date
    → Option Date
    → Provenance
    → Option TradePlanConfig
    → Option (List Date)
    → Outcome TradePlan
unfolding plan_fields
build_trade_plan signal bars limit_pool config plan_date for_trade_date provenance given calendar =
    do
      raise_if (not (signal.trade_date == plan_date)) plan_of_other_day
      let ordered = bars_until plan_date bars
      current ← or_raise (last? ordered) no_bar_on_plan_date
      raise_if (not (current.trade_date == plan_date)) no_bar_on_plan_date
      let plan_config = execution_config config given
      support ←
          plan_support ordered current (keep (λ r. leb r.trade_date plan_date) limit_pool) signal
            config plan_date
      prep ← prep_conditions signal ordered current support config plan_config
      checked "TradePlan" validate_plan (
          plan_fields signal config plan_config provenance plan_date
            (resolved_date plan_date for_trade_date calendar) ordered current support prep)
