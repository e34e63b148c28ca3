-- ===== src/Derived/Events.antt =====
-- derived_limit_event.py: `build_derived_limit_events`. A row's prices are decimals or missing.
use a_share_limit_pullback.Base.{
  raise_if, not, ◌>>◌, ℕ, Bool, true, String, str_eq, Option, none, some, List, [], ◌∷◌, leb,
  text_leb, if◌then◌else◌, contains, sort_by, is_none, ◌||◌, Outcome, ok, or_raise,
  invalid_operation, ◌>>=◌,
}
use a_share_limit_pullback.Dates.{Date, Time}
use a_share_limit_pullback.Decimal.{Decimal, nought}
use a_share_limit_pullback.Models.Config.{StrategyConfig}
use a_share_limit_pullback.Models.Market.{DailyBar}
use a_share_limit_pullback.Structure.Limits.{
  limit_price_fits, is_limit_close, is_one_word_limit, is_t_word_limit, theoretical_limit_price,
}

pub record DailyRow : Type 0 where
  pub code : String
  pub trade_date : Date
  pub open_price : Option Decimal
  pub high : Option Decimal
  pub low : Option Decimal
  pub close : Option Decimal
  pub preclose : Option Decimal
  pub source_daily_hash : Option String
  pub selected_source_hash : Option String
  pub source_row_hash : Option String

pub record DerivedLimitUpEvent : Type 0 where
  pub code : String
  pub trade_date : Date
  pub reference_price : Decimal
  pub theoretical_limit : Decimal
  pub at_limit_close : Bool
  pub is_one_word : Bool
  pub is_t_word : Bool
  pub source_daily_hash : String
  pub source_snapshot_or_staging_id : String
  pub derivation_version : String
  pub corporate_action_status : String
  pub quality_status : String
  pub price_profile : String
  pub first_seal_time : Option Time
  pub last_seal_time : Option Time
  pub open_count : Option ℕ
  pub consecutive_count : Option ℕ
  pub seal_amount : Option Decimal
  pub industry : Option String
  pub enrichment_profile : String

-- `_PriceBar`, a bar of which only the prices are read
unfoldable pub row_bar : DailyRow → Outcome DailyBar
row_bar row = do
  open_price ← or_raise row.open_price invalid_operation
  high ← or_raise row.high invalid_operation
  low ← or_raise row.low invalid_operation
  close ← or_raise row.close invalid_operation
  preclose ← or_raise row.preclose invalid_operation
  ok record {
    trade_date = row.trade_date;
    code = row.code;
    open_price = open_price;
    high = high;
    low = low;
    close = close;
    preclose = preclose;
    volume = nought;
    amount = nought;
    trade_status = true;
    is_st = none;
  }

-- `str(a or b or … or "")`
abbrev pub first_text : List (Option String) → String
first_text [] = ""
first_text (none ∷ texts) = first_text texts
first_text (some text ∷ texts) = if str_eq text "" then first_text texts else text

unfoldable pub quality_of : Option (List String) → String → String
quality_of none code = "OK"
quality_of (some members) code = if contains members code then "OK" else "OUTSIDE_STRATEGY_UNIVERSE"

-- the arguments that every event copies
pub record Derivation : Type 0 where
  pub source_id : String
  pub derivation_version : String
  pub corporate_action_status : String
  pub universe_members : Option (List String)

unfoldable pub derived_event :
    Derivation → StrategyConfig → DailyRow → DailyBar → DerivedLimitUpEvent
derived_event derivation config row bar = record {
  code = bar.code;
  trade_date = bar.trade_date;
  reference_price = bar.preclose;
  theoretical_limit = theoretical_limit_price bar config;
  at_limit_close = true;
  is_one_word = is_one_word_limit bar config;
  is_t_word = is_t_word_limit bar config;
  source_daily_hash =
      first_text (row.source_daily_hash ∷ row.selected_source_hash ∷ row.source_row_hash ∷ []);
  source_snapshot_or_staging_id = derivation.source_id;
  derivation_version = derivation.derivation_version;
  corporate_action_status = derivation.corporate_action_status;
  quality_status = quality_of derivation.universe_members bar.code;
  price_profile = "PRICE_ONLY";
  first_seal_time = none;
  last_seal_time = none;
  open_count = none;
  consecutive_count = none;
  seal_amount = none;
  industry = none;
  enrichment_profile = "PRICE_ONLY";
}

-- `key=lambda event: (event.code, event.trade_date)`
abbrev pub not_after : DerivedLimitUpEvent → DerivedLimitUpEvent → Bool
not_after a b =
    if str_eq a.code b.code then leb a.trade_date b.trade_date else text_leb a.code b.code

module _ (derivation : Derivation) (config : StrategyConfig) where
  unfoldable pub events_of : List DailyRow → Outcome (List DerivedLimitUpEvent)
  events_of [] = ok []
  events_of (row ∷ rows) =
      let rest = events_of rows in
      if is_none row.close || is_none row.preclose then rest else do
        bar ← row_bar row
        raise_if (not (limit_price_fits bar config)) invalid_operation
        events ← rest
        ok (
            if is_limit_close bar config
            then derived_event derivation config row bar ∷ events
            else events)

  unfoldable pub build_derived_limit_events : List DailyRow → Outcome (List DerivedLimitUpEvent)
  build_derived_limit_events rows = do events ← events_of rows; ok (sort_by not_after events)
