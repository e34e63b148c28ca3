-- ===== src/Features/Continuous.antt =====
-- features/common/math.py, `build_continuous_prices`: the chain of closes over previous closes.
use a_share_limit_pullback.Base.{Option, List, [], ◌∷◌, Outcome, ok, checked, ◌>>=◌}
use a_share_limit_pullback.Decimal.{Decimal, ◌*𝔻◌, ◌/𝔻◌}
use a_share_limit_pullback.Dates.{Date}
use a_share_limit_pullback.Features.Bars.{ordered_bars}
use a_share_limit_pullback.Models.Market.{DailyBar}
use a_share_limit_pullback.Models.Strategy.{ContinuousPricePoint, validate_point}

abbrev point : DailyBar → Decimal → Outcome ContinuousPricePoint
point bar continuous_close = checked "ContinuousPricePoint" validate_point (record {
  trade_date = bar.trade_date;
  code = bar.code;
  raw_close = bar.close;
  continuous_close = continuous_close;
})

-- the `for bar in ordered[1:]` loop, from the last continuous close
unfoldable pub chain : Decimal → List DailyBar → Outcome (List ContinuousPricePoint)
chain continuous_close [] = ok []
chain continuous_close (bar ∷ bars) = do
  let next = continuous_close *𝔻 bar.close /𝔻 bar.preclose
  p ← point bar next
  rest ← chain next bars
  ok (p ∷ rest)

unfoldable pub chain_of : List DailyBar → Outcome (List ContinuousPricePoint)
chain_of [] = ok []
chain_of (bar ∷ bars) = do p ← point bar bar.close; rest ← chain bar.close bars; ok (p ∷ rest)

unfoldable pub build_continuous_prices :
    List DailyBar → Option Date → Outcome (List ContinuousPricePoint)
build_continuous_prices bars as_of = do ordered ← ordered_bars bars as_of; chain_of ordered
