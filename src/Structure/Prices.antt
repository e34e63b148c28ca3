-- ===== src/Structure/Prices.antt =====
-- features/structure/prices.py: proximity of prices and their clustering.
pub mod Groups
use a_share_limit_pullback.Base.{
  suc, Bool, String, List, [], ◌∷◌, ◌++◌, map, if◌then◌else◌, text_leb, then_by, sort_by, sorted,
  distinct, length, Outcome, checked, traverse,
}
use a_share_limit_pullback.Decimal.{
  Decimal, one, ◌≤𝔻◌, ◌<𝔻◌, ◌-𝔻◌, ◌/𝔻◌, absolute, sum, of_count, minimum, maximum, minimum_of,
  maximum_of,
}
use a_share_limit_pullback.Models.Strategy.{
  PriceLevelCandidate, validate_level, PriceCluster, validate_cluster,
}

unfoldable pub at_price : Decimal → Decimal → Decimal → Bool
at_price value target tolerance = absolute (value -𝔻 target) ≤𝔻 tolerance

-- a group under construction: its first candidate, and those appended behind
abbrev pub Group : Type 0
Group = PriceLevelCandidate × List PriceLevelCandidate

abbrev pub members : Group → List PriceLevelCandidate
members (c, cs) = c ∷ cs

-- the order of `(item.value, item.source)`
abbrev pub level_leb : PriceLevelCandidate → PriceLevelCandidate → Bool
level_leb a b = then_by (a.value <𝔻 b.value) (b.value <𝔻 a.value) (text_leb a.source b.source)

-- `candidate.value / cluster_low - ONE <= distance`; the cluster's low is its first value
unfoldable pub is_near : Decimal → Group → PriceLevelCandidate → Bool
is_near distance g c = c.value /𝔻 g.0.value -𝔻 one ≤𝔻 distance

-- the `for candidate in ordered` loop, from the group that is under construction
unfoldable pub groups_from : Decimal → Group → List PriceLevelCandidate → List Group
groups_from distance g [] = g ∷ []
groups_from distance g (c ∷ cs) =
    let joined = groups_from distance (g.0, g.1 ++ c ∷ []) cs in
    let split = g ∷ groups_from distance (c, []) cs in
    if is_near distance g c then joined else split

unfoldable pub groups_of : Decimal → List PriceLevelCandidate → List Group
groups_of distance [] = []
groups_of distance (c ∷ cs) = groups_from distance (c, []) cs

abbrev values_of : List PriceLevelCandidate → List Decimal
values_of = map (λ c. c.value)

unfoldable pub cluster_of : Group → PriceCluster
cluster_of (c, cs) =
    let low = minimum_of c.value (values_of cs) in
    let high = maximum_of c.value (values_of cs) in
    let arithmetic_mean = sum (c.value ∷ values_of cs) /𝔻 of_count (suc (length cs)) in
    record {
      low = low;
      high = high;
      center = minimum (maximum arithmetic_mean low) high;
      sources = sorted (distinct (map (λ x. x.source) (c ∷ cs)));
    }

abbrev pub checked_cluster : Group → Outcome PriceCluster
checked_cluster g = checked "PriceCluster" validate_cluster (cluster_of g)

unfoldable pub cluster_price_candidates :
    List PriceLevelCandidate → Decimal → Outcome (List PriceCluster)
cluster_price_candidates candidates distance =
    traverse checked_cluster (groups_of distance (sort_by level_leb candidates))

-- the construction of a candidate
abbrev pub level : String → Decimal → Outcome PriceLevelCandidate
level source value =
    checked "PriceLevelCandidate" validate_level (record { source = source; value = value })
