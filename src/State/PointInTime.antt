-- ===== src/State/PointInTime.antt =====
-- What `evaluate_strategy` reads of its arguments: nothing after the day.
use a_share_limit_pullback.Base.{
  ℕ, Option, List, ◌++◌, leb, false, keep, All, keep-append, keep-none, ◌≡◌, ap, refl, ◌∙◌,
}
use mathlib.Core.List.{append-nil}
use a_share_limit_pullback.Dates.{Date}
use a_share_limit_pullback.Features.Bars.{by_date, bars_until}
use a_share_limit_pullback.Models.Config.{StrategyConfig}
use a_share_limit_pullback.Models.Market.{DailyBar, LimitUpRecord}
use a_share_limit_pullback.Models.Score.{Ranking}
use a_share_limit_pullback.Models.Signal.{StrategySignal}
use a_share_limit_pullback.Models.Strategy.{IndicatorPoint}
use a_share_limit_pullback.State.Evaluate.{evaluate_strategy}
use a_share_limit_pullback.State.Inputs.{sequence, ordered_of}

module _ {A : Type 0} (date : A → Date) (as_of : Date) where
  pub keep-later :
      (xs later : List A)
      → All (λ x. leb (date x) as_of ≡ false) later
      → keep (λ x. leb (date x) as_of) (xs ++ later) ≡ keep (λ x. leb (date x) as_of) xs
  keep-later xs later h =
      keep-append _ xs later
      ∙ ap (λ ys. keep (λ x. leb (date x) as_of) xs ++ ys) (keep-none _ later h)
      ∙ append-nil _

ordered_of-later :
    (as_of : Date) (bars later : List DailyBar)
    → All (λ b. leb b.trade_date as_of ≡ false) later
    → ordered_of (sequence (bars ++ later)) as_of ≡ ordered_of (sequence bars) as_of
unfolding ordered_of bars_until
ordered_of-later as_of bars later h = ap by_date (keep-later (λ b. b.trade_date) as_of bars later h)

-- Bars and pool records dated after the day change nothing: a run on a sequence of bars and a pool
-- gives the same outcome, signal or error, as a run on the two with later ones appended.
pub evaluate_strategy-later :
    (ranking : Ranking) (config : StrategyConfig) (as_of : Date) (bars later_bars : List DailyBar)
    (pool later_pool : List LimitUpRecord) (previous : Option StrategySignal)
    (precomputed : Option (List IndicatorPoint)) (end_index : Option ℕ)
    → All (λ b. leb b.trade_date as_of ≡ false) later_bars
    → All (λ r. leb r.trade_date as_of ≡ false) later_pool
    → evaluate_strategy ranking
        (sequence (bars ++ later_bars))
        as_of
        config
        (pool ++ later_pool)
        previous
        precomputed
        end_index
      ≡ evaluate_strategy ranking (sequence bars) as_of config pool previous precomputed end_index
unfolding evaluate_strategy
evaluate_strategy-later ranking config as_of bars later_bars pool later_pool previous precomputed
      end_index hb hp =
    rw (ordered_of-later as_of bars later_bars hb)
      (rw (keep-later (λ r. r.trade_date) as_of pool later_pool hp) refl)
