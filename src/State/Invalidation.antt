-- ===== src/State/Invalidation.antt =====
-- state/engine_helpers.py, `_evaluate_invalid_reasons`.
pub mod Reasons
pub mod Conjunctions
pub mod Explained
use a_share_limit_pullback.Base.{
  ◌+◌, ◌-◌, Bool, false, not, ◌&&◌, String, Option, none, some, List, [], ◌∷◌, ◌++◌, leb,
  if◌then◌else◌, length, take, drop, but_last, last_n, last?, get_elem?, all, is_empty, sorted,
  distinct, Outcome, ok, or_raise, index_error, ◌>>=◌,
}
use a_share_limit_pullback.Decimal.{Decimal, one, ◌≤𝔻◌, ◌<𝔻◌, ◌-𝔻◌, ◌*𝔻◌, mean}
use a_share_limit_pullback.Features.Indicators.{ma_of}
use a_share_limit_pullback.Models.Config.{StrategyConfig}
use a_share_limit_pullback.Models.Market.{DailyBar}
use a_share_limit_pullback.Models.Snapshots.{SupportSnapshot}
use a_share_limit_pullback.Models.Strategy.{AnchorEvaluation, IndicatorPoint, PriceCluster}
use a_share_limit_pullback.State.Confirm.{volumes}

-- `reasons.append(reason)` under a test
abbrev pub reason_if : Bool → String → List String
reason_if test reason = if test then reason ∷ [] else []

module _ (config : StrategyConfig) (ordered : List DailyBar) (current : DailyBar) where
  -- the floor under a support with the break buffer
  abbrev pub break_floor : PriceCluster → Decimal
  break_floor support = support.low *𝔻 (one -𝔻 config.invalidation.support_break_buffer)

  unfoldable pub hits_invalid_price : Option Decimal → Bool
  hits_invalid_price none = false
  hits_invalid_price (some invalid_price) = current.close ≤𝔻 invalid_price

  below : Option Decimal → Bool
  below none = false
  below (some x) = current.close <𝔻 x

  unfoldable pub breaks_anchor_and_ma10 : AnchorEvaluation → IndicatorPoint → Bool
  unfolding below
  breaks_anchor_and_ma10 anchor point =
      current.close <𝔻 anchor.snapshot.anchor_price && below (ma_of 10 point.raw_equivalent_mas)

  reference_low_of : Option SupportSnapshot → Option Decimal
  reference_low_of none = none
  reference_low_of (some s) = s.reference_low

  unfoldable pub breaks_b1_low_on_volume : Option SupportSnapshot → Bool
  unfolding below reference_low_of
  breaks_b1_low_on_volume snapshot =
      let before = last_n 5 (but_last ordered) in
      below (reference_low_of snapshot)
      && not (is_empty before)
      && mean (volumes before) *𝔻 config.invalidation.volume_expansion_min ≤𝔻 current.volume

  unfoldable pub is_distributed : Bool
  is_distributed =
      let days = config.invalidation.consecutive_distribution_days in
      let tail = last_n days ordered in
      let reference = take 5 (drop (length ordered - (days + 5)) ordered) in
      leb (days + 5) (length ordered)
      && all (λ b. b.close <𝔻 b.preclose && b.close <𝔻 b.open_price) tail
      && mean (volumes reference) *𝔻 config.invalidation.volume_expansion_min ≤𝔻 mean (volumes tail)

  -- `ordered[-2]`, where there is one
  abbrev day_before : Option DailyBar
  day_before = if leb 2 (length ordered) then get_elem? ordered (length ordered - 2) else none

  failed_since : PriceCluster → Option SupportSnapshot → Option DailyBar → Bool
  failed_since support (some snapshot) (some before) =
      leb snapshot.eligible_from before.trade_date
      && before.close <𝔻 break_floor support
      && current.close <𝔻 support.low
  failed_since support _ _ = false

  unfoldable pub fails_recovery : PriceCluster → Option SupportSnapshot → Bool
  unfolding failed_since
  fails_recovery support snapshot = failed_since support snapshot day_before

  -- the reasons in the order of the appends
  unfoldable pub invalid_reasons_at :
      AnchorEvaluation
      → IndicatorPoint
      → PriceCluster
      → Option SupportSnapshot
      → Option Decimal
      → List String
  invalid_reasons_at anchor point support snapshot invalid_price = sorted (
      distinct (
        reason_if (hits_invalid_price invalid_price) "HIT_INVALID_PRICE"
        ++ reason_if (current.close <𝔻 break_floor support) "SUPPORT_BREAK"
        ++ reason_if (breaks_anchor_and_ma10 anchor point) "ANCHOR_AND_MA10_BREAK"
        ++ reason_if (breaks_b1_low_on_volume snapshot) "VOLUME_BREAK_B1_LOW"
        ++ reason_if is_distributed "CONSECUTIVE_VOLUME_DISTRIBUTION"
        ++ reason_if (fails_recovery support snapshot) "FAILED_SUPPORT_RECOVERY"))

unfoldable pub evaluate_invalid_reasons :
    List DailyBar
    → List IndicatorPoint
    → DailyBar
    → AnchorEvaluation
    → Option PriceCluster
    → Option SupportSnapshot
    → Option Decimal
    → StrategyConfig
    → Outcome (List String)
evaluate_invalid_reasons ordered indicators current anchor none snapshot invalid_price config =
    ok (reason_if (hits_invalid_price config ordered current invalid_price) "HIT_INVALID_PRICE")
evaluate_invalid_reasons ordered indicators current anchor (some support) snapshot invalid_price
      config =
    do
      point ← or_raise (last? indicators) index_error
      ok (invalid_reasons_at config ordered current anchor point support snapshot invalid_price)
