-- ===== src/Structure/Levels.antt =====
-- strategy/structure.py, `select_resistance_levels`: the immediate resistance, the target S1 and
-- the audit of every candidate.
use a_share_limit_pullback.Base.{
  Bool, false, not, ◌&&◌, ◌||◌, String, Option, none, some, List, [], ◌∷◌, ◌++◌, if◌then◌else◌, ltb,
  length, keep, first, least, contains, names_eq, is_none, sort_by, then_by, Outcome, ok,
  stop_iteration, checked, or_raise, traverse, ◌>>=◌,
}
use a_share_limit_pullback.Decimal.{Decimal, one, ◌≤𝔻◌, ◌<𝔻◌, ◌=𝔻◌, ◌+𝔻◌, ◌-𝔻◌, ◌*𝔻◌}
use a_share_limit_pullback.Models.Config.{StrategyConfig}
use a_share_limit_pullback.Models.Snapshots.{
  ResistanceCandidateSnapshot, validate_resistance_cluster, validate_candidate,
}
use a_share_limit_pullback.Models.Strategy.{PriceCluster, PriceLevelCandidate}
use a_share_limit_pullback.Structure.Prices.{level, level_leb, cluster_price_candidates}

unfoldable pub excluded_reason : Decimal → PriceCluster → Option String
excluded_reason reference_close cluster =
    if contains cluster.sources "ANCHOR_PRICE_REFERENCE"
    then some "ANCHOR_CLUSTER_OVERLAP"
    else if contains cluster.sources "SUPPORT_LOW_REFERENCE"
        || contains cluster.sources "SUPPORT_HIGH_REFERENCE"
    then some "SUPPORT_CLUSTER_OVERLAP"
    else if cluster.low ≤𝔻 reference_close
    then some "NOT_ABOVE_REFERENCE_PRICE"
    else none

-- the strict order of `(cluster.low, -len(cluster.sources), cluster.center)`
unfoldable pub is_lower_cluster : PriceCluster → PriceCluster → Bool
is_lower_cluster a b = then_by (a.low <𝔻 b.low) (b.low <𝔻 a.low) (
    then_by (ltb (length b.sources) (length a.sources)) (ltb (length a.sources) (length b.sources))
      (a.center <𝔻 b.center))

-- `cluster == other`, which is false for `None`
unfoldable pub is_cluster : PriceCluster → Option PriceCluster → Bool
is_cluster a none = false
is_cluster a (some b) =
    a.low =𝔻 b.low && a.high =𝔻 b.high && a.center =𝔻 b.center && names_eq a.sources b.sources

abbrev pub valid_clusters : Decimal → List PriceCluster → List PriceCluster
valid_clusters reference_close = keep (λ c. is_none (excluded_reason reference_close c))

unfoldable pub select_immediate : Decimal → List PriceCluster → Option PriceCluster
select_immediate reference_close clusters =
    least is_lower_cluster (valid_clusters reference_close clusters)

unfoldable pub immediate_is_b2_platform : Option PriceCluster → Decimal → StrategyConfig → Bool
immediate_is_b2_platform none expected_b2_trigger config = false
immediate_is_b2_platform (some c) expected_b2_trigger config =
    c.low ≤𝔻 expected_b2_trigger *𝔻 (one +𝔻 config.resistance.cluster_distance)
    && expected_b2_trigger *𝔻 (one -𝔻 config.resistance.cluster_distance) ≤𝔻 c.high

module _ (config : StrategyConfig) (reference_close expected_b2_trigger : Decimal)
    (clusters : List PriceCluster) where
  abbrev pub is_target : PriceCluster → Bool
  is_target c =
      let immediate = select_immediate reference_close clusters in
      expected_b2_trigger <𝔻 c.low
      && not
          (immediate_is_b2_platform immediate expected_b2_trigger config && is_cluster c immediate)

  unfoldable pub select_target : Option PriceCluster
  select_target = least is_lower_cluster (keep is_target (valid_clusters reference_close clusters))

  unfoldable pub selected_reason : PriceCluster → Option String
  selected_reason c =
      let immediate = select_immediate reference_close clusters in
      if is_cluster c immediate && is_cluster c select_target
      then some "SELECTED_IMMEDIATE_AND_TARGET_S1"
      else if is_cluster c immediate
      then some "SELECTED_IMMEDIATE_RESISTANCE"
      else if is_cluster c select_target
      then some "SELECTED_TARGET_S1"
      else none

  above_target : Option PriceCluster → PriceCluster → Bool
  above_target none c = false
  above_target (some target) c = target.low <𝔻 c.low

  unfoldable pub audit_reason : PriceCluster → Option String
  unfolding above_target
  audit_reason c =
      let reason = excluded_reason reference_close c in
      let immediate = select_immediate reference_close clusters in
      if is_none reason
        && immediate_is_b2_platform immediate expected_b2_trigger config
        && is_cluster c immediate
      then some "EXPECTED_B2_PLATFORM_CLUSTER"
      else if is_none reason && c.low ≤𝔻 expected_b2_trigger
      then some "NOT_ABOVE_EXPECTED_B2_TRIGGER"
      else if is_none reason && above_target select_target c
      then some "HIGHER_THAN_NEAREST_VALID_TARGET"
      else reason

  abbrev holds : PriceLevelCandidate → PriceCluster → Bool
  holds candidate c =
      contains c.sources candidate.source && c.low ≤𝔻 candidate.value && candidate.value ≤𝔻 c.high

  -- one round of the audit loop
  unfoldable pub audit_candidate : PriceLevelCandidate → Outcome ResistanceCandidateSnapshot
  audit_candidate candidate = do
    c ← or_raise (first (holds candidate) clusters) stop_iteration
    cluster ←
        checked "ResistanceClusterSnapshot" validate_resistance_cluster
          (record { low = c.low; high = c.high; center = c.center; sources = c.sources })
    checked "ResistanceCandidateSnapshot" validate_candidate (record {
      source = candidate.source;
      price = candidate.value;
      cluster = cluster;
      excluded_reason = audit_reason c;
      selected_reason = selected_reason c;
    })

-- the returned tuple
pub record ResistanceLevels : Type 0 where
  pub immediate : Option PriceCluster
  pub target : Option PriceCluster
  pub audit : List ResistanceCandidateSnapshot
  pub expected_b2_trigger : Decimal

unfoldable pub select_resistance_levels :
    List PriceLevelCandidate
    → Decimal
    → PriceCluster
    → Decimal
    → Decimal
    → StrategyConfig
    → Outcome ResistanceLevels
select_resistance_levels candidates anchor_price support reference_close trigger config = do
  anchor_reference ← level "ANCHOR_PRICE_REFERENCE" anchor_price
  low_reference ← level "SUPPORT_LOW_REFERENCE" support.low
  high_reference ← level "SUPPORT_HIGH_REFERENCE" support.high
  clusters ←
      cluster_price_candidates
        (candidates ++ anchor_reference ∷ low_reference ∷ high_reference ∷ [])
        config.resistance.cluster_distance
  audit ←
      traverse (audit_candidate config reference_close trigger clusters)
        (sort_by level_leb candidates)
  ok (record {
    immediate = select_immediate reference_close clusters;
    target = select_target config reference_close trigger clusters;
    audit = audit;
    expected_b2_trigger = trigger;
  })
