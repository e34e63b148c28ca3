-- ===== src/Structure/Anchor.antt =====
-- strategy/structure.py, `detect_anchor`.
pub mod Recent
pub mod Eligible
pub mod Detected
use a_share_limit_pullback.Base.{
  ℕ, ◌+◌, ◌-◌, Bool, true, false, not, ◌&&◌, String, Option, none, some, List, [], ◌∷◌,
  if◌then◌else◌, leb, ltb, ◌==◌, str_eq, length, drop, take, last?, get_elem?, find_last,
  indices_where, keep, Outcome, ok, index_error, checked, or_raise, ◌>>=◌, ◌>>◌,
}
use a_share_limit_pullback.Decimal.{nought, ◌≤𝔻◌}
use a_share_limit_pullback.Dates.{Date}
use a_share_limit_pullback.Features.Bars.{bars_until}
use a_share_limit_pullback.Models.Config.{StrategyConfig}
use a_share_limit_pullback.Models.Enums.{ScoreProfile}
use a_share_limit_pullback.Models.Market.{DailyBar, LimitUpRecord}
use a_share_limit_pullback.Models.Snapshots.{validate_anchor}
use a_share_limit_pullback.Models.Strategy.{AnchorEvaluation}
use a_share_limit_pullback.Structure.Limits.{
  theoretical_limit_price, is_limit_close, is_one_word_limit, is_t_word_limit, pool_record_is_full,
}

-- `is_st is not True`
abbrev pub not_st : Option Bool → Bool
not_st (some true) = false
not_st _ = true

module _ (config : StrategyConfig) where
  abbrev pub is_recent_limit : DailyBar → Bool
  is_recent_limit bar = bar.trade_status && not_st bar.is_st && is_limit_close bar config

  -- `recent_limit_indices`: the limit closes of the last `lookback_trade_days` bars
  unfoldable pub recent_limit_indices : List DailyBar → List ℕ
  recent_limit_indices ordered =
      let start = length ordered - config.anchor.lookback_trade_days in
      indices_where is_recent_limit start (drop start ordered)

  -- `recent_indices`: the limit closes of the window that ends at `index`
  unfoldable pub window_limit_indices : List DailyBar → ℕ → List ℕ
  window_limit_indices ordered index =
      let start = index + 1 - config.anchor.recent_limit_window in
      indices_where (λ bar. is_limit_close bar config) start (drop start (take (index + 1) ordered))

-- `pool_by_key.get((bar.trade_date, bar.code))`, of the records until `as_of`
unfoldable pub pool_record_of : List LimitUpRecord → Date → DailyBar → Option LimitUpRecord
pool_record_of limit_pool as_of bar =
    find_last (λ r. r.trade_date == bar.trade_date && str_eq r.code bar.code)
      (keep (λ r. leb r.trade_date as_of) limit_pool)

-- `all(right - left > 1 for left, right in zip(indices, indices[1:]))`
unfoldable pub are_apart : List ℕ → Bool
are_apart [] = true
are_apart (i ∷ []) = true
are_apart (i ∷ j ∷ rest) = ltb 1 (j - i) && are_apart (j ∷ rest)

-- `index > 0 and not is_limit_close(ordered[index - 1], config)`
unfoldable pub inferred_first_board : StrategyConfig → List DailyBar → ℕ → Bool
inferred_first_board config ordered index = elim (get_elem? ordered (index - 1)) [
  | none ↦ false
  | some before ↦ ltb 0 index && not (is_limit_close before config)
]

abbrev profile_of : Bool → ScoreProfile
profile_of full = if full then ScoreProfile.full else ScoreProfile.price_only

abbrev pub profile_text : ScoreProfile → String
profile_text ScoreProfile.full = "FULL"
profile_text ScoreProfile.price_only = "PRICE_ONLY"

-- the checks on a full pool record: `none` is the `continue`
unfoldable pub seal_check : StrategyConfig → Option LimitUpRecord → Option (Option Bool)
seal_check config none = some none
seal_check config (some r) =
    if not (pool_record_is_full (some r)) then some none else elim r.consecutive_count [
      | none ↦ none
      | some n ↦ elim r.first_seal_time [
        | none ↦ none
        | some sealed ↦
            if n == 1 && leb sealed config.anchor.first_seal_cutoff then some (some true) else none
      ]
    ]

module _ (config : StrategyConfig) (ordered : List DailyBar) (index : ℕ) (bar : DailyBar) where
  -- the conditions of the loop's body, up to the pool record, on which it goes on
  unfoldable pub is_eligible_anchor : Bool
  is_eligible_anchor =
      let recent = window_limit_indices config ordered index in
      is_limit_close bar config
      && not (is_one_word_limit bar config)
      && not (is_t_word_limit bar config)
      && not (config.anchor.require_positive_volume && bar.volume ≤𝔻 nought)
      && not (config.anchor.require_positive_amount && bar.amount ≤𝔻 nought)
      && leb config.anchor.recent_limit_count_min (length recent)
      && leb (length recent) config.anchor.recent_limit_count_max
      && not (config.anchor.require_non_consecutive && not (are_apart recent))
      && not (config.anchor.require_first_board && not (inferred_first_board config ordered index))

  -- the returned evaluation
  unfoldable pub anchor_evaluation : Option LimitUpRecord → Option Bool → AnchorEvaluation
  anchor_evaluation pool_record sealed =
      let full = pool_record_is_full pool_record in
      let profile = profile_of full in
      let recent = window_limit_indices config ordered index in
      record {
        snapshot = record {
          anchor_date = bar.trade_date;
          anchor_price = theoretical_limit_price bar config;
          frozen_as_of = bar.trade_date;
          source = profile_text profile;
        };
        profile = profile;
        limit_price = theoretical_limit_price bar config;
        is_limit_close = true;
        is_one_word = is_one_word_limit bar config;
        is_t_word = is_t_word_limit bar config;
        is_first_board = inferred_first_board config ordered index;
        recent_limit_count = length recent;
        recent_limits_non_consecutive = are_apart recent;
        seal_before_cutoff = sealed;
        pool_record = if full then pool_record else none;
      }

  -- the body of `for index in (recent_limit_indices[-1],)`: a `continue` ends the loop
  unfoldable pub examine_bar : Option LimitUpRecord → Outcome (Option AnchorEvaluation)
  examine_bar pool_record =
      if not is_eligible_anchor then ok none else elim (seal_check config pool_record) [
        | none ↦ ok none
        | some sealed ↦ do
          let found = anchor_evaluation pool_record sealed
          checked "AnchorSnapshot" validate_anchor found.snapshot
          ok (some found)
      ]

unfoldable pub detect_anchor :
    List DailyBar → Date → StrategyConfig → List LimitUpRecord → Outcome (Option AnchorEvaluation)
detect_anchor bars as_of config limit_pool =
    let ordered = bars_until as_of bars in
    elim (last? (recent_limit_indices config ordered)) [
      | none ↦ ok none
      | some index ↦ do
        bar ← or_raise (get_elem? ordered index) index_error
        examine_bar config ordered index bar (pool_record_of limit_pool as_of bar)
    ]
