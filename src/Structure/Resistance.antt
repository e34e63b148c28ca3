-- ===== src/Structure/Resistance.antt =====
-- strategy/structure.py, `generate_resistance_candidates`.
use a_share_limit_pullback.Base.{
  Bool, true, false, ◌&&◌, ◌||◌, String, ◌<>◌, List, [], ◌∷◌, ◌++◌, ltb, keep, take, last_n,
  least_by, then_by, Outcome, ok, ◌>>=◌,
}
use a_share_limit_pullback.Decimal.{◌≤𝔻◌, ◌<𝔻◌}
use a_share_limit_pullback.Dates.{Date, isoformat}
use a_share_limit_pullback.Features.Bars.{bars_until}
use a_share_limit_pullback.Models.Config.{StrategyConfig}
use a_share_limit_pullback.Models.Market.{DailyBar}
use a_share_limit_pullback.Models.Strategy.{AnchorEvaluation, PriceLevelCandidate}
use a_share_limit_pullback.Structure.Prices.{level}

-- `(a.high, a.trade_date) > (b.high, b.trade_date)`
abbrev pub is_higher : DailyBar → DailyBar → Bool
is_higher a b = then_by (b.high <𝔻 a.high) (a.high <𝔻 b.high) (ltb b.trade_date a.trade_date)

unfoldable pub append_highest :
    String → List DailyBar → List PriceLevelCandidate → Outcome (List PriceLevelCandidate)
append_highest source_prefix [] candidates = ok candidates
append_highest source_prefix (b ∷ bs) candidates = do
  let selected = least_by is_higher b bs
  c ← level (source_prefix <> ":" <> isoformat selected.trade_date) selected.high
  ok (candidates ++ c ∷ [])

abbrev pub is_swing_high : DailyBar → DailyBar → DailyBar → Bool
is_swing_high previous_bar bar following_bar =
    previous_bar.high ≤𝔻 bar.high
    && following_bar.high ≤𝔻 bar.high
    && (previous_bar.high <𝔻 bar.high || following_bar.high <𝔻 bar.high)

-- the loop over `dense_window`, each bar between its two neighbours
unfoldable pub swing_highs :
    DailyBar → List DailyBar → List PriceLevelCandidate → Outcome (List PriceLevelCandidate)
swing_highs previous_bar [] candidates = ok candidates
swing_highs previous_bar (bar ∷ []) candidates = ok candidates
swing_highs previous_bar (bar ∷ following_bar ∷ rest) candidates =
    elim (is_swing_high previous_bar bar following_bar) [
      | true ↦ do
        c ← level ("DENSE_SWING_HIGH:" <> isoformat bar.trade_date) bar.high
        swing_highs bar (following_bar ∷ rest) (candidates ++ c ∷ [])
      | false ↦ swing_highs bar (following_bar ∷ rest) candidates
    ]

dense_swing_highs : List DailyBar → List PriceLevelCandidate → Outcome (List PriceLevelCandidate)
dense_swing_highs [] candidates = ok candidates
dense_swing_highs (bar ∷ bars) candidates = swing_highs bar bars candidates

unfoldable pub generate_resistance_candidates :
    List DailyBar → AnchorEvaluation → Date → StrategyConfig → Outcome (List PriceLevelCandidate)
unfolding dense_swing_highs
generate_resistance_candidates bars anchor as_of config = do
  let ordered = bars_until as_of bars
  let before = keep (λ b. ltb b.trade_date anchor.snapshot.anchor_date) ordered
  let after = keep (λ b. ltb anchor.snapshot.anchor_date b.trade_date) ordered
  let long_recent = last_n config.resistance.long_recent_high_lookback_days ordered
  c₁ ←
      append_highest "PRE_ANCHOR_LEFT_HIGH"
        (last_n config.resistance.left_high_lookback_days before) []
  c₂ ←
      append_highest "RECENT_HIGH_20" (last_n config.resistance.recent_high_lookback_days ordered)
        c₁
  c₃ ← append_highest "RECENT_HIGH_60" long_recent c₂
  c₄ ←
      append_highest "FIRST_POST_ANCHOR_HIGH"
        (take config.resistance.first_post_anchor_window_days after) c₃
  dense_swing_highs long_recent c₄
