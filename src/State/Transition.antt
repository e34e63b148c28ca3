-- ===== src/State/Transition.antt =====
-- state/engine.py: whether B1 is ready and B2 is confirmed, why a setup is invalid, and the stage.
use a_share_limit_pullback.Base.{
  ◌+◌, Bool, true, false, not, ◌&&◌, String, Option, none, some, List, [], ◌∷◌, ◌++◌, leb, ltb,
  ◌==◌, if◌then◌else◌, length, keep, contains, is_some, sorted, distinct, Outcome, ok, checked,
  ◌>>=◌,
}
use a_share_limit_pullback.Decimal.{nought, of_count, ◌≤𝔻◌, ◌/𝔻◌}
use a_share_limit_pullback.Dates.{Date}
use a_share_limit_pullback.Models.Config.{StrategyConfig}
use a_share_limit_pullback.Models.Enums.{SetupStage, is_invalid, is_b1_ready}
use a_share_limit_pullback.Models.Market.{DailyBar}
use a_share_limit_pullback.Models.Signal.{StrategySignal}
use a_share_limit_pullback.Models.Snapshots.{
  B2TriggerSnapshot, InvalidPriceSnapshot, validate_timing,
}
use a_share_limit_pullback.Models.Strategy.{
  AnchorEvaluation, ConditionScore, IndicatorPoint, PriceCluster, available_count, match_ratio,
}
use a_share_limit_pullback.State.Confirm.{evaluate_b2_confirmation}
use a_share_limit_pullback.State.Identity.{platform_b2_trigger}
use a_share_limit_pullback.State.Invalidation.{evaluate_invalid_reasons}
use a_share_limit_pullback.State.Levels.{DayLevels}

unfoldable pub is_ready_for_b1 : StrategyConfig → DayLevels → ConditionScore → Bool
is_ready_for_b1 config levels b1 =
    is_some levels.setup_support
    && is_some levels.setup_invalid_price
    && ltb 0 (available_count b1)
    && config.b1.minimum_condition_ratio ≤𝔻 match_ratio b1

-- the frozen trigger of the previous signal of the setup
unfoldable pub prior_trigger : Option StrategySignal → Option B2TriggerSnapshot
prior_trigger none = none
prior_trigger (some s) = s.b2_trigger

abbrev is_mandatory : String → Bool
is_mandatory name = contains ("intraday_trigger_breakout" ∷ "close_holds_trigger" ∷ []) name

abbrev others : List String → List String
others = keep (λ name. not (is_mandatory name))

-- both mandatory conditions, and enough of the others
unfoldable pub confirms_b2 : StrategyConfig → ConditionScore → Bool
confirms_b2 config b2 =
    let matched = length (others b2.matched) in
    let available = matched + length (others b2.failed) in
    let ratio = if available == 0 then nought else of_count matched /𝔻 of_count available in
    contains b2.matched "intraday_trigger_breakout"
    && contains b2.matched "close_holds_trigger"
    && ltb 0 available
    && config.b2.minimum_condition_ratio ≤𝔻 ratio

module _ (config : StrategyConfig) (as_of : Date) (ordered : List DailyBar)
    (indicators : List IndicatorPoint) (current : DailyBar) (anchor : AnchorEvaluation) where
  -- B2 is judged only by a trigger that is eligible on the day
  unfoldable pub b2_check : Option B2TriggerSnapshot → Outcome (Option ConditionScore × Bool)
  b2_check none = ok (none, false)
  b2_check (some trigger) = elim (leb trigger.eligible_from as_of) [
    | false ↦ ok (none, false)
    | true ↦ do
      b2 ← evaluate_b2_confirmation ordered indicators current anchor trigger config
      ok (some b2, confirms_b2 config b2)
  ]

  -- `current_invalidation_reasons`: only with an eligible support and an eligible invalid price
  unfoldable pub current_reasons :
      DayLevels → Option PriceCluster → Option InvalidPriceSnapshot → Outcome (List String)
  current_reasons levels (some support) (some invalid) =
      evaluate_invalid_reasons ordered indicators current anchor (some support)
        levels.eligible_support_snapshot (some invalid.invalid_price) config
  current_reasons levels _ _ = ok []

-- an INVALID setup keeps its reasons, and adds those of the day
unfoldable pub all_reasons : Option StrategySignal → List String → List String
all_reasons none reasons = reasons
all_reasons (some s) reasons =
    if is_invalid s.setup_stage
    then sorted (distinct (s.invalidation_reasons ++ reasons))
    else reasons

unfoldable pub was_b1_ready : Option StrategySignal → Bool
was_b1_ready none = false
was_b1_ready (some s) = is_b1_ready s.setup_stage

-- the `if`/`elif` chain
unfoldable pub next_stage : Bool → Bool → Bool → Bool → Bool → Bool → SetupStage
next_stage invalid on_anchor_day b2_confirmed has_trigger after_b1_ready b1_ready =
    if invalid
    then SetupStage.invalid
    else if on_anchor_day
    then SetupStage.limit_anchor
    else if b2_confirmed
    then SetupStage.b2_confirmed
    else if has_trigger
    then SetupStage.b2_ready
    else if after_b1_ready
    then SetupStage.b2_ready
    else if b1_ready
    then SetupStage.b1_ready
    else SetupStage.watch_pullback

-- the branch of the chain that freezes a new trigger
unfoldable pub freezes_trigger : Bool → Bool → Bool → Bool → Bool → Bool
freezes_trigger invalid on_anchor_day b2_confirmed has_trigger after_b1_ready =
    not invalid && not on_anchor_day && not b2_confirmed && not has_trigger && after_b1_ready

unfoldable pub platform_trigger : List DailyBar → Date → StrategyConfig → Outcome B2TriggerSnapshot
platform_trigger ordered as_of config = do
  price ← platform_b2_trigger ordered config
  checked "B2TriggerSnapshot" validate_timing (record {
    trigger_price = price;
    frozen_as_of = as_of;
    eligible_from = as_of + 1;
    sources = "PULLBACK_PLATFORM_HIGH" ∷ [];
  })

unfoldable pub trigger_after :
    Bool
    → Option B2TriggerSnapshot
    → List DailyBar
    → Date
    → StrategyConfig
    → Outcome (Option B2TriggerSnapshot)
trigger_after true prior ordered as_of config = do
  t ← platform_trigger ordered as_of config
  ok (some t)
trigger_after false prior ordered as_of config = ok prior
