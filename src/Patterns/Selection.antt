-- ===== src/Patterns/Selection.antt =====
-- strategy/patterns.py: `select_primary_pattern` and `explain_primary_pattern`.
use a_share_limit_pullback.Base.{
  ℕ, ◌/◌, ◌%◌, Bool, String, ◌<>◌, Option, none, some, List, if◌then◌else◌, ltb, ◌==◌, length, keep,
  least, then_by,
}
use a_share_limit_pullback.Decimal.{Decimal, ◌<𝔻◌, ◌=𝔻◌, magnitude}
use a_share_limit_pullback.Dates.{show}
use a_share_limit_pullback.Models.Enums.{PatternType}

-- `PATTERN_PRIORITY.index(item)`
abbrev pub priority : PatternType → ℕ
priority PatternType.bearish_pullback = 0
priority PatternType.air_refuel = 1

abbrev pub pattern_text : PatternType → String
pattern_text PatternType.air_refuel = "AIR_REFUEL"
pattern_text PatternType.bearish_pullback = "BEARISH_PULLBACK"

-- `str` of a score, which is quantized to two places and not negative
abbrev score_text : Decimal → String
score_text d =
    let n = magnitude d.coefficient in show (n / 100) <> "." <> show (n / 10 % 10) <> show (n % 10)

module _ (scores : PatternType → Decimal) where
  -- the strict order of `(-pattern_scores[item], PATTERN_PRIORITY.index(item))`
  abbrev pub comes_before : PatternType → PatternType → Bool
  comes_before a b =
      then_by (scores b <𝔻 scores a) (scores a <𝔻 scores b) (ltb (priority a) (priority b))

  -- the first of the sorted patterns, which is the least
  unfoldable pub select_primary_pattern : List PatternType → Option PatternType
  select_primary_pattern matched = least comes_before matched

  unfoldable pub explain_primary_pattern : List PatternType → Option PatternType → String
  explain_primary_pattern matched none = "NO_PATTERN_REACHED_MINIMUM_RATIO"
  explain_primary_pattern matched (some primary) =
      let tied = keep (λ p. scores p =𝔻 scores primary) matched in
      if length matched == 1
      then "ONLY_MATCHED_PATTERN:" <> pattern_text primary
      else if ltb 1 (length tied)
      then "TIE_BREAK_PRIORITY:" <> pattern_text primary <> ":BEARISH_PULLBACK>AIR_REFUEL"
      else "HIGHEST_PATTERN_SCORE:" <> pattern_text primary <> ":" <> score_text (scores primary)
