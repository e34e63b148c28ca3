-- ===== src/Study/Event.antt =====
-- outcome.py: the frozen event, and the bars that come after it.
use a_share_limit_pullback.Base.{
  ℕ, suc, ◌+◌, Bool, String, Option, none, some, List, [], ◌∷◌, ltb, drop, get_num, keep,
}
use a_share_limit_pullback.Dates.{Date}
use a_share_limit_pullback.Decimal.{Decimal}
use a_share_limit_pullback.Models.Enums.{EntryRoomState, SetupStage}
use a_share_limit_pullback.Models.Labels.{ExecutionLabel}
use a_share_limit_pullback.Models.Market.{DailyBar}

pub record FrozenEvent : Type 0 where
  pub code : String
  pub setup_id : String
  pub execution_label : ExecutionLabel
  pub setup_stage : SetupStage
  pub signal_date : Date
  pub anchor_date : Option Date
  pub anchor_price : Option Decimal
  pub support_low : Option Decimal
  pub support_high : Option Decimal
  pub support_center : Option Decimal
  pub b2_trigger_price : Option Decimal
  pub setup_quality_score : Decimal
  pub entry_quality_score : Option Decimal
  pub days_since_anchor : Option ℕ
  pub entry_room_state : Option EntryRoomState
  pub is_entry_candidate : Bool
  pub preferred_entry : Option Decimal
  pub buy_zone_low : Option Decimal
  pub buy_zone_high : Option Decimal
  pub invalid_price : Option Decimal
  pub s1_price : Option Decimal
  pub entry_reference_price : Option Decimal
  pub data_quality : String
  pub quality_flags : List String
  pub snapshot_id : String
  pub strategy_commit : String
  pub strategy_config_hash : String
  pub trade_plan_config_hash : String
  pub outcome_config_hash : String
  pub frozen_event_hash : String
  pub raw_signal_days : ℕ
  pub snapshot_created_at : Option ℕ

-- `{bar.trade_date: index for index, bar in enumerate(bars)}`, a later entry in front
unfoldable pub date_index : ℕ → List DailyBar → List (Date × ℕ) → List (Date × ℕ)
date_index i [] entries = entries
date_index i (bar ∷ bars) entries = date_index (suc i) bars ((bar.trade_date, i) ∷ entries)

abbrev pub later_than : Date → List DailyBar → List DailyBar
later_than day = keep (λ bar. ltb day bar.trade_date)

-- the bars after the one of the signal's day, or those of a later day where the signal has no bar
unfoldable pub future_of : List DailyBar → Date → List DailyBar
unfolding date_index
future_of bars signal_date = elim (get_num signal_date (date_index 0 bars [])) [
  | some index ↦ drop (index + 1) bars
  | none ↦ later_than signal_date bars
]
