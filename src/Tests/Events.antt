-- ===== src/Tests/Events.antt =====
-- The limit-up events of a few days, and their enrichment.
use a_share_limit_pullback.Base.{
  true, if◌then◌else◌, raised, invalid_operation, ◌^◌, String, Option, none, some, List, [], ◌∷◌,
  map, keep, sort_by, ok, ◌≡◌, refl,
}
use a_share_limit_pullback.Dates.{Time}
use a_share_limit_pullback.Derived.DailyBars.{
  build_derived_limit_events-is_limit_close, event_of, row_of, all_fit, limit_closes,
}
use a_share_limit_pullback.Derived.Enrichment.{
  EnrichmentRow, SealTime, compose_enrichment, compose_enrichment-facts_of, facts_of,
}
use a_share_limit_pullback.Derived.Events.{
  Derivation, DerivedLimitUpEvent, build_derived_limit_events, not_after,
}
use a_share_limit_pullback.Structure.Limits.{is_limit_close}
use a_share_limit_pullback.Tests.Engine.{engine}
use a_share_limit_pullback.Tests.Samples.{bar, config, to_watch}

abbrev derivation : Derivation
derivation = record {
  source_id = "snapshot";
  derivation_version = "V1";
  corporate_action_status = "UNKNOWN";
  universe_members = some ("600468" ∷ []);
}

build_derived_limit_events-is_limit_close_example :
    build_derived_limit_events derivation config (map row_of to_watch) ≡ (
      if all_fit derivation config to_watch
      then ok (
          sort_by not_after
            (map (event_of derivation config) (limit_closes derivation config to_watch)))
      else raised invalid_operation)
build_derived_limit_events-is_limit_close_example =
    build_derived_limit_events-is_limit_close derivation config to_watch

all_of_them_fit : all_fit derivation config to_watch ≡ true
unfolding engine
all_of_them_fit = refl

-- a price of 1E+26 has a limit price of more digits than the precision
too_long :
    build_derived_limit_events derivation config
      (row_of (bar 739803 990 1200 985 1000 (10 ^ 28) 1000) ∷ [])
    ≡ raised invalid_operation
unfolding engine
too_long = refl

abbrev events : List DerivedLimitUpEvent
events = map (event_of derivation config) (keep (λ bar. is_limit_close bar config) to_watch)

event_dates : map (λ e. e.trade_date) events ≡ 739803 ∷ []
unfolding engine
event_dates = refl

abbrev no_time : String → Option Time
no_time value = none

abbrev a_row : EnrichmentRow
a_row = record {
  code = "600468";
  trade_date = 739803;
  first_seal_time = some (SealTime.text "9h30");
  last_seal_time = some (SealTime.text "9h45");
  open_count = some 0;
  consecutive_count = some 1;
  industry = none;
}

compose_enrichment-facts_of_example :
    map facts_of (compose_enrichment no_time events (a_row ∷ []))
    ≡ map facts_of (sort_by not_after events)
compose_enrichment-facts_of_example = compose_enrichment-facts_of no_time events (a_row ∷ [])

-- A text that is no time leaves a FULL event without its time.
full_without_time :
    (map (λ e. e.price_profile) (compose_enrichment no_time events (a_row ∷ [])) ≡ "FULL" ∷ [])
    × (map (λ e. e.first_seal_time) (compose_enrichment no_time events (a_row ∷ [])) ≡ none ∷ [])
unfolding engine
full_without_time = (refl, refl)
