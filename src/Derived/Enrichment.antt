-- ===== src/Derived/Enrichment.antt =====
-- derived_limit_event.py: `compose_enrichment`, and the events as records of the pool.
-- `from_iso` is `time.fromisoformat` of a text's first eight characters, with none for an error.
use a_share_limit_pullback.Base.{
  ℕ, Bool, true, false, ◌&&◌, ◌==◌, String, str_eq, Option, none, some, List, [], ◌∷◌, map,
  if◌then◌else◌, find_last, is_some, sort_by, map-sort_by, ◌≡◌, refl, ap, ◌∙◌, sym,
}
use a_share_limit_pullback.Dates.{Date, Time}
use a_share_limit_pullback.Models.Market.{LimitUpRecord}
use a_share_limit_pullback.Derived.Events.{DerivedLimitUpEvent, not_after}

pub data SealTime : Type 0 where
  clock : Time → SealTime
  text : String → SealTime

pub record EnrichmentRow : Type 0 where
  pub code : String
  pub trade_date : Date
  pub first_seal_time : Option SealTime
  pub last_seal_time : Option SealTime
  pub open_count : Option ℕ
  pub consecutive_count : Option ℕ
  pub industry : Option String

abbrev pub complete : EnrichmentRow → Bool
complete row =
    is_some row.first_seal_time
    && is_some row.last_seal_time
    && is_some row.open_count
    && is_some row.consecutive_count

module _ (from_iso : String → Option Time) where
  abbrev pub as_time : Option SealTime → Option Time
  as_time none = none
  as_time (some (clock time)) = some time
  as_time (some (text value)) = from_iso value

  abbrev pub full_event : DerivedLimitUpEvent → EnrichmentRow → DerivedLimitUpEvent
  full_event event legacy = record event {
    first_seal_time = as_time legacy.first_seal_time;
    last_seal_time = as_time legacy.last_seal_time;
    open_count = legacy.open_count;
    consecutive_count = legacy.consecutive_count;
    seal_amount = none;
    industry = legacy.industry;
    price_profile = "FULL";
    enrichment_profile = "FULL";
  }

  abbrev pub with_enrichment : DerivedLimitUpEvent → Option EnrichmentRow → DerivedLimitUpEvent
  with_enrichment event none = event
  with_enrichment event (some legacy) = if complete legacy then full_event event legacy else event

  -- a later row of a key replaces an earlier one
  unfoldable pub enriched : List EnrichmentRow → DerivedLimitUpEvent → DerivedLimitUpEvent
  enriched rows event =
      with_enrichment event
        (find_last (λ row. str_eq row.code event.code && row.trade_date == event.trade_date) rows)

  unfoldable pub compose_enrichment :
      List DerivedLimitUpEvent → List EnrichmentRow → List DerivedLimitUpEvent
  compose_enrichment events rows = sort_by not_after (map (enriched rows) events)

-- `name`, the market caps and the turnover of a record are left out
unfoldable pub event_record : DerivedLimitUpEvent → LimitUpRecord
event_record event = record {
  trade_date = event.trade_date;
  code = event.code;
  limit_price = event.theoretical_limit;
  first_seal_time = event.first_seal_time;
  last_seal_time = event.last_seal_time;
  open_count = event.open_count;
  consecutive_count = event.consecutive_count;
  industry = event.industry;
}

unfoldable pub events_to_limit_up_records : List DerivedLimitUpEvent → List LimitUpRecord
unfolding event_record
events_to_limit_up_records = map event_record

-- An event without what enrichment may set: its facts from the daily bars.
abbrev pub facts_of : DerivedLimitUpEvent → DerivedLimitUpEvent
facts_of event = record event {
  first_seal_time = none;
  last_seal_time = none;
  open_count = none;
  consecutive_count = none;
  seal_amount = none;
  industry = none;
  price_profile = "PRICE_ONLY";
  enrichment_profile = "PRICE_ONLY";
}

module _ (from_iso : String → Option Time) where
  facts_of-with_enrichment :
      (event : DerivedLimitUpEvent) (row : Option EnrichmentRow)
      → facts_of (with_enrichment from_iso event row) ≡ facts_of event
  facts_of-with_enrichment event none = refl
  facts_of-with_enrichment event (some legacy) = facts_of-if (complete legacy)
    where
      facts_of-if :
          (b : Bool)
          → facts_of (if b then full_event from_iso event legacy else event) ≡ facts_of event
      facts_of-if true = refl
      facts_of-if false = refl

  facts_of-enriched :
      (rows : List EnrichmentRow) (events : List DerivedLimitUpEvent)
      → map facts_of (map (enriched from_iso rows) events) ≡ map facts_of events
  unfolding enriched
  facts_of-enriched rows [] = refl
  facts_of-enriched rows (event ∷ events) =
      ap (λ x. x ∷ map facts_of (map (enriched from_iso rows) events))
        (facts_of-with_enrichment event _)
      ∙ ap (λ xs. facts_of event ∷ xs) (facts_of-enriched rows events)

  -- Enrichment neither adds nor drops an event and changes no fact from the daily bars: without the
  -- fields that it may set, the events are those that it is given, in the order of code and date.
  pub compose_enrichment-facts_of :
      (events : List DerivedLimitUpEvent) (rows : List EnrichmentRow)
      → map facts_of (compose_enrichment from_iso events rows)
        ≡ map facts_of (sort_by not_after events)
  unfolding compose_enrichment
  compose_enrichment-facts_of events rows =
      map-sort_by facts_of not_after not_after (λ x y. refl) (map (enriched from_iso rows) events)
      ∙ ap (sort_by not_after) (facts_of-enriched rows events)
      ∙ sym (map-sort_by facts_of not_after not_after (λ x y. refl) events)
