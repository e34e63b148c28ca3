-- ===== src/State/Frozen.antt =====
-- state/engine.py: the levels that a setup has frozen (`prior_…` before the day, `frozen_…` after
-- it), and those that the day may use (`eligible_…`).
pub mod Later
use a_share_limit_pullback.Base.{
  ◌+◌, true, false, ◌&&◌, String, Option, none, some, List, [], leb, str_eq, if◌then◌else◌, is_none,
  Outcome, ok, checked, ◌>>=◌,
}
use a_share_limit_pullback.Decimal.{Decimal}
use a_share_limit_pullback.Dates.{Date}
use a_share_limit_pullback.Models.Config.{StrategyConfig}
use a_share_limit_pullback.Models.Enums.{SetupStage, is_b1_ready}
use a_share_limit_pullback.Models.Market.{DailyBar}
use a_share_limit_pullback.Models.Signal.{StrategySignal}
use a_share_limit_pullback.Models.Snapshots.{
  SupportSnapshot, InvalidPriceSnapshot, ResistanceSnapshot, S1Snapshot,
  ResistanceCandidateSnapshot, validate_support, validate_invalid_price, validate_resistance,
  validate_s1,
}
use a_share_limit_pullback.Models.Strategy.{PriceCluster}

pub record FrozenLevels : Type 0 where
  pub support : Option SupportSnapshot
  pub invalid_snapshot : Option InvalidPriceSnapshot
  pub immediate_resistance : Option ResistanceSnapshot
  pub target_s1 : Option S1Snapshot
  pub resistance_candidates : List ResistanceCandidateSnapshot
  pub expected_b2_trigger : Option Decimal

abbrev pub nothing_frozen : FrozenLevels
nothing_frozen = record {
  support = none;
  invalid_snapshot = none;
  immediate_resistance = none;
  target_s1 = none;
  resistance_candidates = [];
  expected_b2_trigger = none;
}

-- `previous_same`: the previous signal, if it belongs to the same setup
unfoldable pub same_setup : Option StrategySignal → String → Option StrategySignal
same_setup none setup_id = none
same_setup (some s) setup_id = if str_eq s.setup_id setup_id then some s else none

-- the `prior_…` values
unfoldable pub frozen_of : Option StrategySignal → FrozenLevels
frozen_of none = nothing_frozen
frozen_of (some s) = record {
  support = s.support;
  invalid_snapshot = s.invalid_price_snapshot;
  immediate_resistance = s.immediate_resistance;
  target_s1 = s.target_s1;
  resistance_candidates = s.resistance_candidates;
  expected_b2_trigger = s.expected_b2_trigger_price;
}

-- `prior_… if prior_… is not None and prior_….eligible_from <= as_of else None`
unfoldable pub eligible : {A : Type 0} → (A → Date) → Date → Option A → Option A
eligible eligible_from as_of none = none
eligible eligible_from as_of (some a) = if leb (eligible_from a) as_of then some a else none

-- what the day adds to a setup with no frozen support, if it becomes B1_READY
pub record Proposal : Type 0 where
  pub support : PriceCluster
  pub invalid_price : Decimal
  pub immediate : Option PriceCluster
  pub target : Option PriceCluster
  pub audit : List ResistanceCandidateSnapshot
  pub expected_b2_trigger : Decimal

module _ (as_of : Date) where
  freeze_resistance : Option PriceCluster → Outcome (Option ResistanceSnapshot)
  freeze_resistance none = ok none
  freeze_resistance (some c) = do
    r ← checked "ResistanceSnapshot" validate_resistance (record {
      resistance_low = c.low;
      resistance_high = c.high;
      sources = c.sources;
      frozen_as_of = as_of;
      eligible_from = as_of + 1;
    })
    ok (some r)

  freeze_target : Option PriceCluster → Outcome (Option S1Snapshot)
  freeze_target none = ok none
  freeze_target (some c) = do
    t ← checked "S1Snapshot" validate_s1 (record {
      s1_low = c.low;
      s1_high = c.high;
      sources = c.sources;
      frozen_as_of = as_of;
      eligible_from = as_of + 1;
    })
    ok (some t)

  -- the body of `if stage is B1_READY and frozen_support is None and …`
  unfoldable pub freeze : StrategyConfig → DailyBar → Proposal → Outcome FrozenLevels
  unfolding freeze_resistance freeze_target
  freeze config current p = do
    support ← checked "SupportSnapshot" validate_support (record {
      support_low = p.support.low;
      support_high = p.support.high;
      support_center = p.support.center;
      sources = p.support.sources;
      frozen_as_of = as_of;
      eligible_from = as_of + 1;
      reference_close = current.close;
      max_above_reference_close = config.support.max_above_reference_close;
      reference_low = some current.low;
    })
    invalid_snapshot ← checked "InvalidPriceSnapshot" validate_invalid_price (record {
      initial_invalid_price = p.invalid_price;
      invalid_price = p.invalid_price;
      frozen_as_of = as_of;
      eligible_from = as_of + 1;
    })
    immediate_resistance ← freeze_resistance p.immediate
    target_s1 ← freeze_target p.target
    ok (record {
      support = some support;
      invalid_snapshot = some invalid_snapshot;
      immediate_resistance = immediate_resistance;
      target_s1 = target_s1;
      resistance_candidates = p.audit;
      expected_b2_trigger = some p.expected_b2_trigger;
    })

  -- the `frozen_…` values; the proposal is there if the setup's support and invalid price are
  unfoldable pub frozen_after :
      StrategyConfig → DailyBar → SetupStage → FrozenLevels → Option Proposal → Outcome FrozenLevels
  frozen_after config current stage prior none = ok prior
  frozen_after config current stage prior (some p) =
      elim (is_b1_ready stage && is_none prior.support) [
        | true ↦ freeze config current p
        | false ↦ ok prior
      ]
