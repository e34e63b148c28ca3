-- ===== src/State/Levels.antt =====
-- state/engine.py: the levels of the day. A setup with a frozen support uses that once it is
-- eligible; one without computes a support, its resistances and an invalid price.
pub mod Eligible
use a_share_limit_pullback.Base.{Option, none, some, List, [], Outcome, ok, checked, ◌>>=◌}
use a_share_limit_pullback.Decimal.{Decimal, one, ◌-𝔻◌, ◌*𝔻◌}
use a_share_limit_pullback.Dates.{Date}
use a_share_limit_pullback.Models.Config.{StrategyConfig}
use a_share_limit_pullback.Models.Market.{DailyBar}
use a_share_limit_pullback.Models.Snapshots.{
  SupportSnapshot, InvalidPriceSnapshot, ResistanceCandidateSnapshot,
}
use a_share_limit_pullback.Models.Strategy.{
  AnchorEvaluation, IndicatorPoint, PriceCluster, validate_cluster,
}
use a_share_limit_pullback.State.Frozen.{FrozenLevels, Proposal, eligible}
use a_share_limit_pullback.State.Identity.{
  as_cluster, as_s1_cluster, expected_b2_trigger, quantize_price,
}
use a_share_limit_pullback.Structure.Levels.{ResistanceLevels, select_resistance_levels}
use a_share_limit_pullback.Structure.Prices.{cluster_price_candidates}
use a_share_limit_pullback.Structure.Resistance.{generate_resistance_candidates}
use a_share_limit_pullback.Structure.Support.{generate_support_candidates, select_support_cluster}

pub record DayLevels : Type 0 where
  pub eligible_support_snapshot : Option SupportSnapshot
  pub eligible_invalid_snapshot : Option InvalidPriceSnapshot
  pub eligible_support : Option PriceCluster
  pub eligible_target_s1 : Option PriceCluster
  pub setup_support : Option PriceCluster
  pub setup_invalid_price : Option Decimal
  pub immediate : Option PriceCluster
  pub target : Option PriceCluster
  pub audit : List ResistanceCandidateSnapshot
  pub expected_b2_trigger : Decimal

checked_map : {A : Type 0} → (A → PriceCluster) → Option A → Outcome (Option PriceCluster)
checked_map f none = ok none
checked_map f (some a) = do c ← checked "PriceCluster" validate_cluster (f a); ok (some c)

module _ (config : StrategyConfig) (as_of : Date) (ordered : List DailyBar)
    (indicators : List IndicatorPoint) (current : DailyBar) (anchor : AnchorEvaluation) where
  unfoldable pub computed_support : Outcome (Option PriceCluster)
  computed_support = do
    candidates ← generate_support_candidates ordered indicators anchor as_of config
    clusters ← cluster_price_candidates candidates config.support.cluster_distance
    ok (select_support_cluster clusters current.close config)

  -- with a frozen support, or with none computed, no resistances are computed
  unfoldable pub computed_resistance :
      Option SupportSnapshot → Option PriceCluster → Decimal → Outcome ResistanceLevels
  computed_resistance none (some support) trigger = do
    candidates ← generate_resistance_candidates ordered anchor as_of config
    select_resistance_levels candidates anchor.snapshot.anchor_price support current.close trigger
        config
  computed_resistance prior support trigger =
      ok (record { immediate = none; target = none; audit = []; expected_b2_trigger = trigger })

  abbrev if_frozen : {A B : Type 0} → Option A → Option B → Option B → Option B
  if_frozen none eligible_value computed = computed
  if_frozen (some _) eligible_value computed = eligible_value

  -- `setup_invalid_price`: the eligible frozen one, else the one proposed from the support
  unfoldable pub setup_invalid_price_of :
      Option InvalidPriceSnapshot → Option PriceCluster → Option Decimal
  setup_invalid_price_of (some s) support = some s.invalid_price
  setup_invalid_price_of none none = none
  setup_invalid_price_of none (some support) =
      some (quantize_price (support.low *𝔻 (one -𝔻 config.support.invalid_buffer)) config)

  unfoldable pub day_levels : FrozenLevels → Outcome DayLevels
  unfolding checked_map as_cluster as_s1_cluster expected_b2_trigger
  day_levels prior = do
    computed ← computed_support
    let support_snapshot = eligible (λ s. s.eligible_from) as_of prior.support
    let invalid_snapshot = eligible (λ s. s.eligible_from) as_of prior.invalid_snapshot
    support ← checked_map as_cluster support_snapshot
    s1 ← checked_map as_s1_cluster (eligible (λ s. s.eligible_from) as_of prior.target_s1)
    trigger ← expected_b2_trigger ordered config
    resistance ← computed_resistance prior.support computed trigger
    let setup_support = if_frozen prior.support support computed
    ok (record {
      eligible_support_snapshot = support_snapshot;
      eligible_invalid_snapshot = invalid_snapshot;
      eligible_support = support;
      eligible_target_s1 = s1;
      setup_support = setup_support;
      setup_invalid_price = setup_invalid_price_of invalid_snapshot setup_support;
      immediate = resistance.immediate;
      target = resistance.target;
      audit = resistance.audit;
      expected_b2_trigger = resistance.expected_b2_trigger;
    })

-- what would be frozen, if the support and the invalid price are there
unfoldable pub proposal_of : DayLevels → Option Proposal
proposal_of l = elim l.setup_support [
  | none ↦ none
  | some support ↦ elim l.setup_invalid_price [
    | none ↦ none
    | some invalid_price ↦ some (record {
      support = support;
      invalid_price = invalid_price;
      immediate = l.immediate;
      target = l.target;
      audit = l.audit;
      expected_b2_trigger = l.expected_b2_trigger;
    })
  ]
]
