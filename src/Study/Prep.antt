-- ===== src/Study/Prep.antt =====
-- outcome.py: what became of an event at B1_PREP (`_update_prep_metrics`).
use a_share_limit_pullback.Base.{
  ℕ, Bool, Option, none, some, List, [], ◌∷◌, map, leb, ◌==◌, if◌then◌else◌, length, take, first,
  any,
}
use mathlib.Core.Option
use a_share_limit_pullback.Dates.{Date}
use a_share_limit_pullback.Decimal.{Decimal, nought, one, ◌<𝔻◌, ◌-𝔻◌, ◌/𝔻◌, maximum_of, minimum_of}
use a_share_limit_pullback.Models.Labels.{label_is_b1_prep}
use a_share_limit_pullback.Models.Market.{DailyBar}
use a_share_limit_pullback.Models.Outcome.{OutcomeEpisode}
use a_share_limit_pullback.Study.Barriers.{quantized}
use a_share_limit_pullback.Study.Event.{future_of}

abbrev pub converts : List Date → List DailyBar → Bool
converts b1_dates = any (λ bar. any (λ d. d == bar.trade_date) b1_dates)

-- the two excursions of a window from the close of the signal's day
unfoldable pub excursions_of : Option Decimal → List DailyBar → Option Decimal × Option Decimal
excursions_of none window = (none, none)
excursions_of (some reference) [] = (none, none)
excursions_of (some reference) (bar ∷ bars) =
    if nought <𝔻 reference
    then (
      some (quantized (maximum_of bar.high (map (λ b. b.high) bars) /𝔻 reference -𝔻 one)),
      some (quantized (minimum_of bar.low (map (λ b. b.low) bars) /𝔻 reference -𝔻 one)),
    )
    else (none, none)

abbrev full : ℕ → List DailyBar → Bool → Option Bool
full horizon future converted = if leb horizon (length future) then some converted else none

-- `b1_dates` are the days on which the setup's stage is B1_READY.
unfoldable pub update_prep_metrics : OutcomeEpisode → List DailyBar → List Date → OutcomeEpisode
unfolding excursions_of future_of
update_prep_metrics event bars b1_dates =
    let future = future_of bars event.signal_date in
    let reference =
      Option.map (λ bar. bar.close) (first (λ bar. bar.trade_date == event.signal_date) bars) in
    let day = excursions_of reference (take 1 future) in
    let three = excursions_of reference (take 3 future) in
    let five = excursions_of reference (take 5 future) in
    if label_is_b1_prep event.execution_label
    then record event {
      prep_conversion_1d = some (converts b1_dates (take 1 future));
      prep_conversion_3d = full 3 future (converts b1_dates (take 3 future));
      prep_conversion_5d = full 5 future (converts b1_dates (take 5 future));
      prep_mfe_1d = day.0;
      prep_mfe_3d = three.0;
      prep_mfe_5d = five.0;
      prep_mae_1d = day.1;
      prep_mae_3d = three.1;
      prep_mae_5d = five.1;
    }
    else event
