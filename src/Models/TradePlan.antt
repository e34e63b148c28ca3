-- ===== src/Models/TradePlan.antt =====
-- models/trade_plan.py: the thresholds of a plan, and a plan with its validator.
use a_share_limit_pullback.Base.{
  ℕ, Bool, true, false, not, ◌&&◌, ◌||◌, String, str_eq, Option, none, some, List, ltb,
}
use a_share_limit_pullback.Dates.{Date}
use a_share_limit_pullback.Decimal.{Decimal, nought, ◌≤𝔻◌}
use a_share_limit_pullback.Models.Enums.{
  DataQuality, EntryRoomState, SetupStage, is_b1_ready, is_unusable,
}
use a_share_limit_pullback.Models.Labels.{ExecutionLabel, label_is_b1_prep}
use a_share_limit_pullback.Models.Snapshots.{positive_or_none}

pub record TradePlanConfig : Type 0 where
  pub prep_support_distance_max : Decimal
  pub prep_volume_to_anchor_max : Decimal
  pub prep_volume_to_post_anchor_max : Decimal

pub record TradePlan : Type 0 where
  pub code : String
  pub plan_date : Date
  pub for_trade_date : Option Date
  pub setup_stage : SetupStage
  pub execution_label : ExecutionLabel
  pub anchor_date : Option Date
  pub anchor_price : Option Decimal
  pub days_since_anchor : Option ℕ
  pub current_close : Option Decimal
  pub buy_zone_low : Option Decimal
  pub buy_zone_high : Option Decimal
  pub preferred_entry : Option Decimal
  pub trigger_price : Option Decimal
  pub support_price : Option Decimal
  pub invalid_price : Option Decimal
  pub s1_price : Option Decimal
  pub s2_price : Option Decimal
  pub entry_room_state : Option EntryRoomState
  pub distance_to_support_pct : Option Decimal
  pub volume_contraction : Option Decimal
  pub risk_pct : Option Decimal
  pub reward_pct : Option Decimal
  pub rr : Option Decimal
  pub setup_quality_score : Decimal
  pub entry_quality_score : Option Decimal
  pub data_quality : DataQuality
  pub quality_flags : List String
  pub is_actionable : Bool
  pub cancel_conditions : List String
  pub snapshot_id : String
  pub strategy_commit : String
  pub config_hash : String
  pub execution_config_hash : Option String

abbrev pub label_is_b1_ready : ExecutionLabel → Bool
label_is_b1_ready ExecutionLabel.b1_ready = true
label_is_b1_ready _ = false

abbrev pub label_is_watch_only : ExecutionLabel → Bool
label_is_watch_only ExecutionLabel.watch_only = true
label_is_watch_only _ = false

abbrev pub is_watch_pullback : SetupStage → Bool
is_watch_pullback SetupStage.watch_pullback = true
is_watch_pullback _ = false

abbrev is_after : Date → Option Date → Bool
is_after day none = true
is_after day (some d) = ltb day d

-- `low <= high` where both are known
abbrev pub in_order : Option Decimal → Option Decimal → Bool
in_order (some low) (some high) = low ≤𝔻 high
in_order _ _ = true

-- `low <= price <= high` where all are known
abbrev pub is_between : Option Decimal → Option Decimal → Option Decimal → Bool
is_between (some price) (some low) (some high) = low ≤𝔻 price && price ≤𝔻 high
is_between _ _ _ = true

unfoldable pub check_zone : TradePlan → Bool
check_zone p =
    in_order p.buy_zone_low p.buy_zone_high
    && (not (label_is_b1_prep p.execution_label || label_is_b1_ready p.execution_label)
        || is_between p.preferred_entry p.buy_zone_low p.buy_zone_high)

unfoldable pub check_label : TradePlan → Bool
check_label p =
    (not (label_is_b1_prep p.execution_label)
      || is_watch_pullback p.setup_stage
      || is_b1_ready p.setup_stage)
    && not (p.is_actionable && label_is_watch_only p.execution_label)
    && not (p.is_actionable && is_unusable p.data_quality)

abbrev not_negative : Option Decimal → Bool
not_negative none = true
not_negative (some x) = nought ≤𝔻 x

unfoldable pub check_prices : TradePlan → Bool
check_prices p =
    positive_or_none p.anchor_price
    && positive_or_none p.current_close
    && positive_or_none p.buy_zone_low
    && positive_or_none p.buy_zone_high
    && positive_or_none p.preferred_entry
    && positive_or_none p.trigger_price
    && positive_or_none p.support_price
    && positive_or_none p.invalid_price
    && positive_or_none p.s1_price
    && positive_or_none p.s2_price
    && not (str_eq p.snapshot_id "")
    && not (str_eq p.strategy_commit "")
    && not (str_eq p.config_hash "")

-- the bounds of the fields and `validate_plan`
unfoldable pub validate_plan : TradePlan → Bool
unfolding check_zone check_label check_prices
validate_plan p =
    check_prices p
    && is_after p.plan_date p.for_trade_date
    && check_zone p
    && check_label p
    && not_negative p.rr
