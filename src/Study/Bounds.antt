-- ===== src/Study/Bounds.antt =====
-- A fill's price lies within the range of the session that fills it.
use a_share_limit_pullback.Base.{true, false, Option, none, some, ◌≡◌, subst, arith}
use a_share_limit_pullback.Decimal.{Decimal, nought, ◌≤𝔻◌, ◌<𝔻◌, maximum, minimum}
use a_share_limit_pullback.Decimal.Order.{
  ≤𝔻_trans, ≤𝔻_total, le-maximum_left, lt_of_lt_of_le, minimum-le_left,
}
use a_share_limit_pullback.Models.Labels.{FillType}
use a_share_limit_pullback.Models.Market.{DailyBar, validate_ohlc}
use a_share_limit_pullback.Study.Fill.{
  Plan, Entry, missed, filled_at, entry_of, breakout_entry, pullback_entry,
}

-- what the validation of a bar says of its open price and its range
record HasRange (bar : DailyBar) : Type 0 where
  positive : (nought <𝔻 bar.low) ≡ true
  low-open : (bar.low ≤𝔻 bar.open_price) ≡ true
  open-high : (bar.open_price ≤𝔻 bar.high) ≡ true

above_lowest :
    (bar : DailyBar)
    → validate_ohlc bar ≡ true
    → (bar.low ≤𝔻 minimum (minimum bar.open_price bar.high) bar.close) ≡ true
unfolding validate_ohlc
above_lowest bar h = ground arith

below_highest :
    (bar : DailyBar)
    → validate_ohlc bar ≡ true
    → (maximum (maximum bar.open_price bar.low) bar.close ≤𝔻 bar.high) ≡ true
unfolding validate_ohlc
below_highest bar h = ground arith

validate_ohlc-HasRange : (bar : DailyBar) → validate_ohlc bar ≡ true → HasRange bar
unfolding validate_ohlc
validate_ohlc-HasRange bar h = record {
  positive = ground arith;
  low-open = ≤𝔻_trans bar.low _ bar.open_price (above_lowest bar h) (
      ≤𝔻_trans _ (minimum bar.open_price bar.high) bar.open_price (minimum-le_left _ bar.close)
        (minimum-le_left bar.open_price bar.high));
  open-high =
      ≤𝔻_trans bar.open_price _ bar.high
        (≤𝔻_trans bar.open_price (maximum bar.open_price bar.low) _
          (le-maximum_left bar.open_price bar.low) (le-maximum_left _ bar.close))
        (below_highest bar h);
}

-- Within its range, above nought.
pub record IsTradable (bar : DailyBar) (price : Decimal) : Type 0 where
  pub above : (bar.low ≤𝔻 price) ≡ true
  pub below : (price ≤𝔻 bar.high) ≡ true
  pub positive : (nought <𝔻 price) ≡ true

IsTradableEntry : DailyBar → Entry → Type 0
IsTradableEntry bar (missed reason) = Unit
IsTradableEntry bar (filled_at fill_type price) = IsTradable bar price

module _ (bar : DailyBar) (range : HasRange bar) where
  in_range :
      (price : Decimal)
      → (bar.low ≤𝔻 price) ≡ true
      → (price ≤𝔻 bar.high) ≡ true
      → IsTradable bar price
  in_range price h k = record {
    above = h;
    below = k;
    positive = lt_of_lt_of_le nought bar.low price range.positive h;
  }

  at_open : IsTradable bar bar.open_price
  at_open = in_range bar.open_price range.low-open range.open-high

  above_open :
      (price : Decimal)
      → (price ≤𝔻 bar.open_price) ≡ false
      → (price ≤𝔻 bar.high) ≡ true
      → IsTradable bar price
  above_open price h k =
      in_range price
        (≤𝔻_trans bar.low bar.open_price price range.low-open (≤𝔻_total price bar.open_price h)) k

  below_open :
      (price : Decimal)
      → (bar.open_price ≤𝔻 price) ≡ false
      → (bar.low ≤𝔻 price) ≡ true
      → IsTradable bar price
  below_open price h k =
      in_range price k
        (≤𝔻_trans price bar.open_price bar.high (≤𝔻_total bar.open_price price h) range.open-high)

  breakout-IsTradable : (s1 trigger : Decimal) → IsTradableEntry bar (breakout_entry s1 trigger bar)
  unfolding IsTradableEntry
  breakout-IsTradable s1 trigger = ground (arith, at_open, above_open trigger)

  pullback-IsTradable :
      (preferred invalid : Decimal) → IsTradableEntry bar (pullback_entry preferred invalid bar)
  unfolding IsTradableEntry
  pullback-IsTradable preferred invalid = ground (arith, at_open, below_open preferred)

  entry_cases :
      (plan : Plan) (trigger : Option Decimal)
      → IsTradableEntry bar (elim trigger [
        | some t ↦ breakout_entry plan.s1 t bar
        | none ↦ pullback_entry plan.preferred plan.invalid bar
      ])
  entry_cases plan (some t) = breakout-IsTradable plan.s1 t
  entry_cases plan none = pullback-IsTradable plan.preferred plan.invalid

-- A session whose bar is valid fills a plan only at a positive price of its range, from its low to
-- its high.
pub entry_of-IsTradable :
    (plan : Plan) (bar : DailyBar) {fill_type : FillType} {price : Decimal}
    → validate_ohlc bar ≡ true
    → entry_of plan bar ≡ filled_at fill_type price
    → IsTradable bar price
unfolding entry_of IsTradableEntry
entry_of-IsTradable plan bar valid h =
    subst (IsTradableEntry bar) h (entry_cases bar (validate_ohlc-HasRange bar valid) plan _)
