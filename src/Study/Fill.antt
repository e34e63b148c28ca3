-- ===== src/Study/Fill.antt =====
-- outcome.py, `_complete_event`: whether the first session after a signal fills the plan's order, and
-- how a filled trade ends.
use a_share_limit_pullback.Base.{
  ℕ, suc, ◌-◌, ◌&&◌, String, Option, none, some, List, ◌∷◌, ◌==◌, if◌then◌else◌, Outcome, ok, ◌>>=◌,
}
use mathlib.Core.Option
use a_share_limit_pullback.Decimal.{Decimal, ◌≤𝔻◌, ◌<𝔻◌}
use a_share_limit_pullback.Models.Labels.{FillType}
use a_share_limit_pullback.Models.Market.{DailyBar}
use a_share_limit_pullback.Study.Barriers.{
  Resolution, ambiguous_on, hits_invalid, hits_s1, loss_on, timeout_on, trigger_outcome, win_on,
}

-- The prices of a plan: `trigger` is the trigger of B2 at B2_READY, and none at the other labels.
pub record Plan : Type 0 where
  pub preferred : Decimal
  pub invalid : Decimal
  pub s1 : Decimal
  pub trigger : Option Decimal

pub data Entry : Type 0 where
  missed : String → Entry
  filled_at : FillType → Decimal → Entry

abbrev pub breakout_entry : Decimal → Decimal → DailyBar → Entry
breakout_entry s1 trigger bar =
    if trigger ≤𝔻 bar.open_price
    then if s1 ≤𝔻 bar.open_price
      then missed "REWARD_NON_POSITIVE_AT_ENTRY"
      else filled_at FillType.breakout_gap_fill bar.open_price
    else if trigger ≤𝔻 bar.high
    then filled_at FillType.breakout_trigger_fill trigger
    else missed "T_PLUS_1_ENTRY_NOT_TOUCHED"

abbrev pub pullback_entry : Decimal → Decimal → DailyBar → Entry
pullback_entry preferred invalid bar =
    if invalid <𝔻 bar.open_price && bar.open_price ≤𝔻 preferred
    then filled_at FillType.open_fill bar.open_price
    else if preferred <𝔻 bar.open_price && bar.low ≤𝔻 preferred
    then filled_at FillType.intraday_touch_fill preferred
    else missed "T_PLUS_1_ENTRY_NOT_TOUCHED"

unfoldable pub entry_of : Plan → DailyBar → Entry
entry_of plan bar = elim plan.trigger [
  | some trigger ↦ breakout_entry plan.s1 trigger bar
  | none ↦ pullback_entry plan.preferred plan.invalid bar
]

-- `if holding is not None: holding += 1`
abbrev pub one_session_more : Resolution → Resolution
one_session_more r = record r { holding = Option.map suc r.holding }

-- The sessions after the fill's, where that leaves any.
unfoldable pub resolve_later : Plan → ℕ → DailyBar → List DailyBar → Outcome Resolution
resolve_later plan sessions bar rest =
    if sessions - 1 == 0
    then ok (timeout_on bar 1)
    else do r ← trigger_outcome rest (sessions - 1) plan.s1 plan.invalid; ok (one_session_more r)

-- The order of prices within the day of the fill is known in part only.
unfoldable pub resolve : Plan → ℕ → FillType → DailyBar → List DailyBar → Outcome Resolution
unfolding resolve_later
resolve plan sessions FillType.breakout_trigger_fill bar rest =
    if hits_invalid plan.invalid bar
    then ok (ambiguous_on bar 1)
    else if hits_s1 plan.s1 bar
    then ok (win_on bar plan.s1 1)
    else resolve_later plan sessions bar rest
resolve plan sessions FillType.intraday_touch_fill bar rest =
    if hits_invalid plan.invalid bar
    then if hits_s1 plan.s1 bar then ok (ambiguous_on bar 1) else ok (loss_on bar plan.invalid 1)
    else resolve_later plan sessions bar rest
resolve plan sessions FillType.none bar rest =
    trigger_outcome (bar ∷ rest) sessions plan.s1 plan.invalid
resolve plan sessions FillType.open_fill bar rest =
    trigger_outcome (bar ∷ rest) sessions plan.s1 plan.invalid
resolve plan sessions FillType.breakout_gap_fill bar rest =
    trigger_outcome (bar ∷ rest) sessions plan.s1 plan.invalid
