-- ===== src/Models/Labels.antt =====
-- models/enums.py, the labels of the outcome study.
use a_share_limit_pullback.Base.{Bool, true, false}

pub data ExecutionLabel : Type 0 where
  b1_prep b1_ready b2_ready b2_confirmed watch_only : ExecutionLabel

pub data OutcomeStatus : Type 0 where
  no_fill cancel_gap_invalid win_s1 loss_invalid timeout ambiguous_intraday censored : OutcomeStatus

pub data FillStatus : Type 0 where
  no_fill cancel_gap_invalid filled censored : FillStatus

pub data FillType : Type 0 where
  none open_fill intraday_touch_fill breakout_gap_fill breakout_trigger_fill : FillType

pub data PatternOutcome : Type 0 where
  s1_before_invalid invalid_before_s1 neither ambiguous censored : PatternOutcome

pub data SetupTerminationReason : Type 0 where
  active invalidated superseded_by_new_anchor expired : SetupTerminationReason

-- `label is ExecutionLabel.B1_PREP` and the like
abbrev pub label_is_b1_prep : ExecutionLabel → Bool
label_is_b1_prep ExecutionLabel.b1_prep = true
label_is_b1_prep _ = false

abbrev pub label_is_b2_ready : ExecutionLabel → Bool
label_is_b2_ready ExecutionLabel.b2_ready = true
label_is_b2_ready _ = false

abbrev pub is_no_fill : OutcomeStatus → Bool
is_no_fill OutcomeStatus.no_fill = true
is_no_fill _ = false

abbrev pub is_cancelled : OutcomeStatus → Bool
is_cancelled OutcomeStatus.cancel_gap_invalid = true
is_cancelled _ = false

abbrev pub is_win : OutcomeStatus → Bool
is_win OutcomeStatus.win_s1 = true
is_win _ = false

abbrev pub is_loss : OutcomeStatus → Bool
is_loss OutcomeStatus.loss_invalid = true
is_loss _ = false

abbrev pub is_timeout : OutcomeStatus → Bool
is_timeout OutcomeStatus.timeout = true
is_timeout _ = false

abbrev pub is_ambiguous : OutcomeStatus → Bool
is_ambiguous OutcomeStatus.ambiguous_intraday = true
is_ambiguous _ = false

abbrev pub is_censored : OutcomeStatus → Bool
is_censored OutcomeStatus.censored = true
is_censored _ = false

abbrev pub is_filled : FillStatus → Bool
is_filled FillStatus.filled = true
is_filled _ = false

abbrev pub is_touch_fill : FillType → Bool
is_touch_fill FillType.intraday_touch_fill = true
is_touch_fill _ = false

abbrev pub is_trigger_fill : FillType → Bool
is_trigger_fill FillType.breakout_trigger_fill = true
is_trigger_fill _ = false
