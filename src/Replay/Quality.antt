-- ===== src/Replay/Quality.antt =====
-- quality.py: the worst of several qualities, and a signal with the quality of its sources.
use a_share_limit_pullback.Base.{
  ℕ, ◌≤◌, Bool, true, false, not, any, ◌&&◌, String, Option, List, [], ◌∷◌, ◌++◌, ltb,
  if◌then◌else◌, sorted, distinct, ◌≡◌, refl, arith, is_empty,
}
use mathlib.Core.Option
use a_share_limit_pullback.Decimal.{Decimal, nought, ◌*𝔻◌}
use a_share_limit_pullback.Models.Enums.{DataQuality, is_actionable, is_unusable}
use a_share_limit_pullback.Models.Signal.{StrategySignal, is_entry_candidate}

-- `QUALITY_ORDER`
abbrev pub quality_order : DataQuality → ℕ
quality_order DataQuality.ok = 0
quality_order DataQuality.partial = 1
quality_order DataQuality.degraded = 2
quality_order DataQuality.unusable = 3

-- `max(values, key=…)` of a sequence with the first value `worst`
unfoldable pub worst_quality : DataQuality → List DataQuality → DataQuality
worst_quality worst [] = worst
worst_quality worst (q ∷ qs) =
    worst_quality (if ltb (quality_order worst) (quality_order q) then q else worst) qs

unfoldable pub merged_quality : StrategySignal → List DataQuality → Bool → DataQuality
unfolding worst_quality
merged_quality signal source_qualities insufficient_history =
    if insufficient_history
    then DataQuality.unusable
    else worst_quality signal.data_quality source_qualities

abbrev zeroed : Bool → Option Decimal → Option Decimal
zeroed unusable score = if unusable then Option.map (λ x. x *𝔻 nought) score else score

unfoldable pub merge_signal_quality :
    StrategySignal → List DataQuality → List String → Bool → StrategySignal
unfolding merged_quality
merge_signal_quality signal source_qualities source_flags insufficient_history =
    let merged = merged_quality signal source_qualities insufficient_history in
    record signal {
      data_quality = merged;
      quality_flags = sorted (
          distinct (
            signal.quality_flags
            ++ source_flags
            ++ (if insufficient_history then "INSUFFICIENT_TRADING_HISTORY" ∷ [] else [])));
      entry_quality_score = zeroed (is_unusable merged) signal.entry_quality_score;
    }

-- `is_malformed` is `flag.startswith("MALFORMED_DAILY_ROW:")`.
unfoldable pub daily_prefix_quality : (String → Bool) → DataQuality → List String → DataQuality
daily_prefix_quality is_malformed overall flags =
    if is_unusable overall
    then DataQuality.unusable
    else if any is_malformed flags
    then DataQuality.degraded
    else if is_empty flags
    then DataQuality.ok
    else DataQuality.partial

worst_quality-le :
    (worst : DataQuality) (qs : List DataQuality)
    → quality_order worst ≤ quality_order (worst_quality worst qs)
unfolding worst_quality
worst_quality-le worst [] = omega arith
worst_quality-le worst (q ∷ qs) =
    ground (
      arith,
      worst_quality-le (if ltb (quality_order worst) (quality_order q) then q else worst) qs,
    )

unusable-worst :
    (worst : DataQuality) (qs : List DataQuality)
    → is_unusable worst ≡ true
    → is_unusable (worst_quality worst qs) ≡ true
unusable-worst worst qs h = ground (arith, h, worst_quality-le worst qs)

still_unusable :
    (signal : StrategySignal) (qs : List DataQuality) (short : Bool)
    → is_unusable signal.data_quality ≡ true
    → is_unusable (merged_quality signal qs short) ≡ true
unfolding merged_quality
still_unusable signal qs true h = refl
still_unusable signal qs false h = unusable-worst signal.data_quality qs h

usable_parts :
    (a old new x y z : Bool)
    → (old ≡ true → new ≡ true)
    → (a && not new && not x && not y && not z) ≡ true
    → (a && not old && not x && not y && not z) ≡ true
usable_parts a true new x y z h k = ground (arith, h refl, k)
usable_parts a false new x y z h k = ground (arith, k)

-- The quality of its sources never makes a signal an entry candidate: one that is a candidate with
-- their quality merged was one before.
pub merge_signal_quality-is_entry_candidate :
    (signal : StrategySignal) (source_qualities : List DataQuality) (source_flags : List String)
    (insufficient_history : Bool)
    → is_entry_candidate
        (merge_signal_quality signal source_qualities source_flags insufficient_history)
      ≡ true
    → is_entry_candidate signal ≡ true
unfolding merge_signal_quality is_entry_candidate
merge_signal_quality-is_entry_candidate signal qs flags short h =
    usable_parts (is_actionable signal.setup_stage) (is_unusable signal.data_quality) _ _ _ _
      (still_unusable signal qs short) h
