-- ===== src/Models/Snapshots.antt =====
-- models/signal.py: the frozen snapshots of a setup. Each `validate_…` is the bounds of the fields
-- and the model validator, on which the construction raises.
use a_share_limit_pullback.Base.{
  String, Bool, true, not, ◌&&◌, Option, none, some, List, leb, ltb, is_empty, contains,
}
use a_share_limit_pullback.Decimal.{Decimal, decimal, nought, one, ◌+𝔻◌, ◌*𝔻◌, ◌≤𝔻◌, ◌<𝔻◌}
use a_share_limit_pullback.Dates.{Date}

pub record AnchorSnapshot : Type 0 where
  pub anchor_date : Date
  pub anchor_price : Decimal
  pub frozen_as_of : Date
  pub source : String

unfoldable pub validate_anchor : AnchorSnapshot → Bool
validate_anchor a = nought <𝔻 a.anchor_price && leb a.anchor_date a.frozen_as_of

pub record SupportSnapshot : Type 0 where
  pub support_low : Decimal
  pub support_high : Decimal
  pub support_center : Decimal
  pub sources : List String
  pub frozen_as_of : Date
  pub eligible_from : Date
  pub reference_close : Decimal
  pub max_above_reference_close : Decimal
  pub reference_low : Option Decimal

abbrev pub positive_or_none : Option Decimal → Bool
positive_or_none none = true
positive_or_none (some x) = nought <𝔻 x

unfoldable pub validate_support : SupportSnapshot → Bool
validate_support s =
    nought <𝔻 s.support_low
    && nought <𝔻 s.support_high
    && nought <𝔻 s.support_center
    && nought <𝔻 s.reference_close
    && positive_or_none s.reference_low
    && nought ≤𝔻 s.max_above_reference_close
    && s.max_above_reference_close ≤𝔻 decimal 5 3
    && not (is_empty s.sources)
    && s.support_low ≤𝔻 s.support_center
    && s.support_center ≤𝔻 s.support_high
    && ltb s.frozen_as_of s.eligible_from
    && s.support_center ≤𝔻 s.reference_close *𝔻 (one +𝔻 s.max_above_reference_close)

pub record B2TriggerSnapshot : Type 0 where
  pub trigger_price : Decimal
  pub frozen_as_of : Date
  pub eligible_from : Date
  pub sources : List String

unfoldable pub validate_timing : B2TriggerSnapshot → Bool
validate_timing t =
    nought <𝔻 t.trigger_price && ltb t.frozen_as_of t.eligible_from && not (is_empty t.sources)

pub record S1Snapshot : Type 0 where
  pub s1_low : Decimal
  pub s1_high : Decimal
  pub sources : List String
  pub frozen_as_of : Date
  pub eligible_from : Date

unfoldable pub validate_s1 : S1Snapshot → Bool
validate_s1 s =
    nought <𝔻 s.s1_low
    && nought <𝔻 s.s1_high
    && s.s1_low ≤𝔻 s.s1_high
    && not (is_empty s.sources)
    && ltb s.frozen_as_of s.eligible_from

pub record ResistanceSnapshot : Type 0 where
  pub resistance_low : Decimal
  pub resistance_high : Decimal
  pub sources : List String
  pub frozen_as_of : Date
  pub eligible_from : Date

unfoldable pub validate_resistance : ResistanceSnapshot → Bool
validate_resistance r =
    nought <𝔻 r.resistance_low
    && nought <𝔻 r.resistance_high
    && r.resistance_low ≤𝔻 r.resistance_high
    && not (is_empty r.sources)
    && ltb r.frozen_as_of r.eligible_from

pub record ResistanceClusterSnapshot : Type 0 where
  pub low : Decimal
  pub high : Decimal
  pub center : Decimal
  pub sources : List String

unfoldable pub validate_resistance_cluster : ResistanceClusterSnapshot → Bool
validate_resistance_cluster c =
    nought <𝔻 c.low
    && nought <𝔻 c.high
    && nought <𝔻 c.center
    && c.low ≤𝔻 c.center
    && c.center ≤𝔻 c.high
    && not (is_empty c.sources)

pub record ResistanceCandidateSnapshot : Type 0 where
  pub source : String
  pub price : Decimal
  pub cluster : ResistanceClusterSnapshot
  pub excluded_reason : Option String
  pub selected_reason : Option String

unfoldable pub validate_candidate : ResistanceCandidateSnapshot → Bool
validate_candidate c =
    nought <𝔻 c.price
    && contains c.cluster.sources c.source
    && c.cluster.low ≤𝔻 c.price
    && c.price ≤𝔻 c.cluster.high

pub record InvalidPriceSnapshot : Type 0 where
  pub initial_invalid_price : Decimal
  pub invalid_price : Decimal
  pub frozen_as_of : Date
  pub eligible_from : Date

unfoldable pub validate_invalid_price : InvalidPriceSnapshot → Bool
validate_invalid_price s =
    nought <𝔻 s.initial_invalid_price
    && nought <𝔻 s.invalid_price
    && s.initial_invalid_price ≤𝔻 s.invalid_price
    && ltb s.frozen_as_of s.eligible_from
