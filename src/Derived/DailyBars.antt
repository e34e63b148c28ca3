-- ===== src/Derived/DailyBars.antt =====
-- derived_limit_event.py: the events of rows that are written from daily bars.
use a_share_limit_pullback.Base.{
  all, ◌&&◌, not, raise_if, raised, invalid_operation, ◌>>=◌, contains, Option, String, sym, ok,
  some, none, List, [], ◌∷◌, map, keep, sort_by, if◌then◌else◌, Bool, true, false, ap, ◌≡◌, refl,
}
use a_share_limit_pullback.Decimal.{nought}
use a_share_limit_pullback.Models.Config.{StrategyConfig}
use a_share_limit_pullback.Models.Market.{DailyBar}
use a_share_limit_pullback.Structure.Limits.{
  limit_price_fits, is_limit_close, is_one_word_limit, is_t_word_limit, theoretical_limit_price,
}
use a_share_limit_pullback.Derived.Events.{
  quality_of, DailyRow, Derivation, DerivedLimitUpEvent, build_derived_limit_events, derived_event,
  events_of, not_after, row_bar,
}

-- the row of a bar, with no hash of its source
abbrev pub row_of : DailyBar → DailyRow
row_of bar = record {
  code = bar.code;
  trade_date = bar.trade_date;
  open_price = some bar.open_price;
  high = some bar.high;
  low = some bar.low;
  close = some bar.close;
  preclose = some bar.preclose;
  source_daily_hash = none;
  selected_source_hash = none;
  source_row_hash = none;
}

module _ (derivation : Derivation) (config : StrategyConfig) where
  -- the event of a bar that closes at its limit
  abbrev pub event_of : DailyBar → DerivedLimitUpEvent
  event_of bar = record {
    code = bar.code;
    trade_date = bar.trade_date;
    reference_price = bar.preclose;
    theoretical_limit = theoretical_limit_price bar config;
    at_limit_close = true;
    is_one_word = is_one_word_limit bar config;
    is_t_word = is_t_word_limit bar config;
    source_daily_hash = "";
    source_snapshot_or_staging_id = derivation.source_id;
    derivation_version = derivation.derivation_version;
    corporate_action_status = derivation.corporate_action_status;
    quality_status = elim derivation.universe_members [
      | none ↦ "OK"
      | some members ↦ if contains members bar.code then "OK" else "OUTSIDE_STRATEGY_UNIVERSE"
    ];
    price_profile = "PRICE_ONLY";
    first_seal_time = none;
    last_seal_time = none;
    open_count = none;
    consecutive_count = none;
    seal_amount = none;
    industry = none;
    enrichment_profile = "PRICE_ONLY";
  }

  -- the bar with its prices alone, as `row_bar` makes it
  abbrev priced : DailyBar → DailyBar
  priced bar = record bar { volume = nought; amount = nought; trade_status = true; is_st = none }

  limit_price-priced :
      (bar : DailyBar)
      → theoretical_limit_price (priced bar) config ≡ theoretical_limit_price bar config
  unfolding theoretical_limit_price
  limit_price-priced bar = refl

  limit_price_fits-priced :
      (bar : DailyBar) → limit_price_fits (priced bar) config ≡ limit_price_fits bar config
  unfolding limit_price_fits
  limit_price_fits-priced bar = refl

  is_limit_close-priced :
      (bar : DailyBar) → is_limit_close (priced bar) config ≡ is_limit_close bar config
  unfolding is_limit_close
  is_limit_close-priced bar = rw (limit_price-priced bar) refl

  quality_cases :
      (members : Option (List String)) (code : String)
      → quality_of members code ≡ elim members [
        | none ↦ "OK"
        | some names ↦ if contains names code then "OK" else "OUTSIDE_STRATEGY_UNIVERSE"
      ]
  unfolding quality_of
  quality_cases none code = refl
  quality_cases (some names) code = refl

  derived_event-priced :
      (bar : DailyBar) → derived_event derivation config (row_of bar) (priced bar) ≡ event_of bar
  unfolding derived_event is_one_word_limit is_t_word_limit
  derived_event-priced bar =
      rw (limit_price-priced bar, quality_cases derivation.universe_members bar.code) refl

  map-keep :
      (bar : DailyBar) (bars : List DailyBar) (test : Bool)
      → map event_of (if test then bar ∷ bars else bars)
        ≡ (if test then event_of bar ∷ map event_of bars else map event_of bars)
  map-keep bar bars true = refl
  map-keep bar bars false = refl

  abbrev pub all_fit : List DailyBar → Bool
  all_fit = all (λ bar. limit_price_fits bar config)

  abbrev pub limit_closes : List DailyBar → List DailyBar
  limit_closes = keep (λ bar. is_limit_close bar config)

  next_event :
      (fits rest_fits : Bool) (bar : DailyBar) (bars : List DailyBar)
      → (raise_if (not fits) invalid_operation >>= λ _.
          (if rest_fits then ok (map event_of bars) else raised invalid_operation) >>= λ events.
          ok (if is_limit_close bar config then event_of bar ∷ events else events))
        ≡ (if fits && rest_fits
            then ok (map event_of (if is_limit_close bar config then bar ∷ bars else bars))
            else raised invalid_operation)
  next_event true true bar bars = ap ok (sym (map-keep bar bars (is_limit_close bar config)))
  next_event true false bar bars = refl
  next_event false rest_fits bar bars = refl

  events_of-rows :
      (bars : List DailyBar)
      → events_of derivation config (map row_of bars)
        ≡ (if all_fit bars then ok (map event_of (limit_closes bars)) else raised invalid_operation)
  unfolding events_of row_bar
  events_of-rows [] = refl
  events_of-rows (bar ∷ bars) =
      rw
        (
          events_of-rows bars,
          limit_price_fits-priced bar,
          is_limit_close-priced bar,
          derived_event-priced bar,
        )
        (next_event (limit_price_fits bar config) (all_fit bars) bar (limit_closes bars))

  sorted_if :
      (b : Bool) (events : List DerivedLimitUpEvent)
      → ((if b then ok events else raised invalid_operation) >>= λ xs. ok (sort_by not_after xs))
        ≡ (if b then ok (sort_by not_after events) else raised invalid_operation)
  sorted_if true events = refl
  sorted_if false events = refl

  -- The rows of daily bars raise that an operation is invalid exactly where the limit price of some bar
  -- has too many digits. Where none has, their events are those of the bars that close at the limit
  -- price, one for each, in the order of code and date.
  pub build_derived_limit_events-is_limit_close :
      (bars : List DailyBar)
      → build_derived_limit_events derivation config (map row_of bars) ≡ (
          if all_fit bars
          then ok (sort_by not_after (map event_of (limit_closes bars)))
          else raised invalid_operation)
  unfolding build_derived_limit_events
  build_derived_limit_events-is_limit_close bars =
      rw (events_of-rows bars) (sorted_if (all_fit bars) (map event_of (limit_closes bars)))
