-- ===== src/Models/Market.antt =====
-- models/market.py: a daily bar and a record of the limit-up pool, with their validators. The
-- fields that no modelled code reads (`pct_change`, `source`, `fetched_at`, market caps) are left
-- out.
use a_share_limit_pullback.Base.{ℕ, String, Bool, ◌&&◌, Option}
use a_share_limit_pullback.Decimal.{Decimal, nought, ◌≤𝔻◌, ◌<𝔻◌, maximum, minimum}
use a_share_limit_pullback.Dates.{Date, Time}

pub record DailyBar : Type 0 where
  pub trade_date : Date
  pub code : String
  pub open_price : Decimal
  pub high : Decimal
  pub low : Decimal
  pub close : Decimal
  pub preclose : Decimal
  pub volume : Decimal
  pub amount : Decimal
  pub trade_status : Bool
  pub is_st : Option Bool

-- the fields' bounds (`PositiveDecimal`, `NonNegativeDecimal`) and `validate_ohlc`
unfoldable pub validate_ohlc : DailyBar → Bool
validate_ohlc b =
    nought <𝔻 b.open_price
    && nought <𝔻 b.high
    && nought <𝔻 b.low
    && nought <𝔻 b.close
    && nought <𝔻 b.preclose
    && nought ≤𝔻 b.volume
    && nought ≤𝔻 b.amount
    && maximum (maximum b.open_price b.low) b.close ≤𝔻 b.high
    && b.low ≤𝔻 minimum (minimum b.open_price b.high) b.close

pub record LimitUpRecord : Type 0 where
  pub trade_date : Date
  pub code : String
  pub limit_price : Decimal
  pub first_seal_time : Option Time
  pub last_seal_time : Option Time
  pub open_count : Option ℕ
  pub consecutive_count : Option ℕ
  pub industry : Option String
