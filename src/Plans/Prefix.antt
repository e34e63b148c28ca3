-- ===== src/Plans/Prefix.antt =====
-- What `build_trade_plan` reads of the bars and the pool: nothing after the day of the plan.
use a_share_limit_pullback.Base.{false, Option, List, ◌++◌, leb, All, ◌≡◌, ap, refl}
use a_share_limit_pullback.Dates.{Date}
use a_share_limit_pullback.Features.Bars.{by_date, bars_until}
use a_share_limit_pullback.Models.Config.{StrategyConfig}
use a_share_limit_pullback.Models.Market.{DailyBar, LimitUpRecord}
use a_share_limit_pullback.Models.Signal.{StrategySignal}
use a_share_limit_pullback.Models.TradePlan.{TradePlanConfig}
use a_share_limit_pullback.Plans.Build.{Provenance, build_trade_plan}
use a_share_limit_pullback.State.PointInTime.{keep-later}

bars_until-later :
    (day : Date) (bars later : List DailyBar)
    → All (λ b. leb b.trade_date day ≡ false) later
    → bars_until day (bars ++ later) ≡ bars_until day bars
unfolding bars_until
bars_until-later day bars later h = ap by_date (keep-later (λ b. b.trade_date) day bars later h)

-- A plan from a sequence of bars and a pool is the same outcome, plan or error, as one from the two
-- with later ones appended, when all of those are dated after the day of the plan.
pub build_trade_plan-later :
    (signal : StrategySignal) (config : StrategyConfig) (plan_date : Date)
    (bars later_bars : List DailyBar) (pool later_pool : List LimitUpRecord)
    (for_trade_date : Option Date) (provenance : Provenance) (given : Option TradePlanConfig)
    (calendar : Option (List Date))
    → All (λ b. leb b.trade_date plan_date ≡ false) later_bars
    → All (λ r. leb r.trade_date plan_date ≡ false) later_pool
    → build_trade_plan signal
        (bars ++ later_bars)
        (pool ++ later_pool)
        config
        plan_date
        for_trade_date
        provenance
        given
        calendar
      ≡ build_trade_plan signal bars pool config plan_date for_trade_date provenance given calendar
unfolding build_trade_plan
build_trade_plan-later signal config plan_date bars later_bars pool later_pool for_trade_date
      provenance given calendar hb hp =
    rw (bars_until-later plan_date bars later_bars hb)
      (rw (keep-later (λ r. r.trade_date) plan_date pool later_pool hp) refl)
