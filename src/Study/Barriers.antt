-- ===== src/Study/Barriers.antt =====
-- outcome.py: which of the two prices, S1 and the invalid price, the bars after a signal touch first
-- (`_pattern_result`, `_trigger_outcome`), and the excursions of a trade (`_apply_mfe_mae`).
use a_share_limit_pullback.Base.{
  ℕ, suc, Bool, not, ◌&&◌, ◌||◌, Option, none, some, List, [], ◌∷◌, map, leb, ltb, ◌==◌,
  if◌then◌else◌, length, take, keep, last?, Outcome, ok, or_raise, index_error, ◌>>=◌,
}
use a_share_limit_pullback.Dates.{Date}
use a_share_limit_pullback.Decimal.{
  Decimal, nought, one, ◌≤𝔻◌, ◌-𝔻◌, ◌/𝔻◌, quantize, minimum_of, maximum_of,
}
use a_share_limit_pullback.Models.Labels.{
  FillType, OutcomeStatus, PatternOutcome, is_ambiguous, is_loss, is_touch_fill, is_trigger_fill,
  is_win,
}
use a_share_limit_pullback.Models.Market.{DailyBar}

abbrev pub minus_one : Decimal
minus_one = nought -𝔻 one

-- `_quantize`
abbrev pub quantized : Decimal → Decimal
quantized x = quantize x 4

abbrev pub hits_s1 : Decimal → DailyBar → Bool
hits_s1 s1 bar = s1 ≤𝔻 bar.high

abbrev pub hits_invalid : Decimal → DailyBar → Bool
hits_invalid invalid bar = bar.low ≤𝔻 invalid

-- the loop of `_pattern_result`
unfoldable pub pattern_touch : Decimal → Decimal → List DailyBar → Option PatternOutcome
pattern_touch s1 invalid [] = none
pattern_touch s1 invalid (bar ∷ bars) =
    if hits_s1 s1 bar && hits_invalid invalid bar
    then some PatternOutcome.ambiguous
    else if hits_s1 s1 bar
    then some PatternOutcome.s1_before_invalid
    else if hits_invalid invalid bar
    then some PatternOutcome.invalid_before_s1
    else pattern_touch s1 invalid bars

unfoldable pub pattern_result : List DailyBar → ℕ → Decimal → Decimal → PatternOutcome
unfolding pattern_touch
pattern_result future horizon s1 invalid =
    let window = take horizon future in
    elim (pattern_touch s1 invalid window) [
      | some result ↦ result
      | none ↦
          if ltb (length window) horizon then PatternOutcome.censored else PatternOutcome.neither
    ]

-- What `_trigger_outcome` returns: the outcome, and where it is resolved the day, the price, the
-- number of sessions held and the two multiples of the risk.
pub record Resolution : Type 0 where
  pub outcome : OutcomeStatus
  pub resolution_date : Option Date
  pub exit_price : Option Decimal
  pub holding : Option ℕ
  pub r_value : Option Decimal
  pub conservative_r : Option Decimal

abbrev pub ambiguous_on : DailyBar → ℕ → Resolution
ambiguous_on bar index = record {
  outcome = OutcomeStatus.ambiguous_intraday;
  resolution_date = some bar.trade_date;
  exit_price = none;
  holding = some index;
  r_value = none;
  conservative_r = some minus_one;
}

abbrev pub win_on : DailyBar → Decimal → ℕ → Resolution
win_on bar s1 index = record {
  outcome = OutcomeStatus.win_s1;
  resolution_date = some bar.trade_date;
  exit_price = some s1;
  holding = some index;
  r_value = none;
  conservative_r = none;
}

abbrev pub loss_on : DailyBar → Decimal → ℕ → Resolution
loss_on bar invalid index = record {
  outcome = OutcomeStatus.loss_invalid;
  resolution_date = some bar.trade_date;
  exit_price = some invalid;
  holding = some index;
  r_value = some minus_one;
  conservative_r = some minus_one;
}

abbrev pub timeout_on : DailyBar → ℕ → Resolution
timeout_on bar sessions = record {
  outcome = OutcomeStatus.timeout;
  resolution_date = some bar.trade_date;
  exit_price = none;
  holding = some sessions;
  r_value = none;
  conservative_r = none;
}

abbrev pub unresolved : Resolution
unresolved = record {
  outcome = OutcomeStatus.censored;
  resolution_date = none;
  exit_price = none;
  holding = none;
  r_value = none;
  conservative_r = none;
}

-- the loop of `_trigger_outcome`, at the session `index`
unfoldable pub trigger_touch : ℕ → Decimal → Decimal → List DailyBar → Option Resolution
trigger_touch index s1 invalid [] = none
trigger_touch index s1 invalid (bar ∷ bars) =
    if hits_s1 s1 bar && hits_invalid invalid bar
    then some (ambiguous_on bar index)
    else if hits_s1 s1 bar
    then some (win_on bar s1 index)
    else if hits_invalid invalid bar
    then some (loss_on bar invalid index)
    else trigger_touch (suc index) s1 invalid bars

-- `window[-1]` of an empty window raises.
abbrev pub timed_out : List DailyBar → Outcome Resolution
timed_out window = do bar ← or_raise (last? window) index_error; ok (timeout_on bar (length window))

unfoldable pub trigger_outcome : List DailyBar → ℕ → Decimal → Decimal → Outcome Resolution
unfolding trigger_touch
trigger_outcome future max_holding_sessions s1 invalid =
    let window = take max_holding_sessions future in
    elim (trigger_touch 1 s1 invalid window) [
      | some resolution ↦ ok resolution
      | none ↦ if ltb (length window) max_holding_sessions then ok unresolved else timed_out window
    ]

-- the bars until the resolution, where the trade is resolved by a touch
unfoldable pub excursion_window : OutcomeStatus → Option Date → List DailyBar → List DailyBar
excursion_window outcome none window = window
excursion_window outcome (some day) window =
    if is_win outcome || is_loss outcome || is_ambiguous outcome
    then keep (λ bar. leb bar.trade_date day) window
    else window

-- `max(values, default=None) / fill_price - 1`
abbrev excursion : (Decimal → List Decimal → Decimal) → Decimal → List Decimal → Option Decimal
excursion extreme fill_price [] = none
excursion extreme fill_price (x ∷ xs) = some (quantized (extreme x xs /𝔻 fill_price -𝔻 one))

unfoldable pub apply_mfe_mae :
    List DailyBar
    → Decimal
    → ℕ
    → FillType
    → Date
    → OutcomeStatus
    → Option Date
    → Option Decimal × Option Decimal
unfolding excursion_window
apply_mfe_mae future fill_price max_holding_sessions fill_type fill_date outcome resolution_date =
    let window = take max_holding_sessions future in
    let resolved = excursion_window outcome resolution_date window in
    let known_highs =
      keep (λ bar. not (is_touch_fill fill_type && bar.trade_date == fill_date)) resolved in
    let known_lows =
      keep (λ bar. not (is_trigger_fill fill_type && bar.trade_date == fill_date)) resolved in
    if leb (length window) 0 || fill_price ≤𝔻 nought then (none, none) else (
      excursion maximum_of fill_price (map (λ bar. bar.high) known_highs),
      excursion minimum_of fill_price (map (λ bar. bar.low) known_lows),
    )
