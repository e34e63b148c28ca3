-- ===== src/Conditions.antt =====
-- The dict of condition results that becomes a `ConditionScore`: strategy/patterns.py,
-- `_condition_score`, and state/engine_helpers.py, `_conditions`, which are the same function.
use a_share_limit_pullback.Base.{
  Bool, true, false, String, Option, none, some, List, [], ◌∷◌, if◌then◌else◌, sorted, Outcome,
  checked,
}
use a_share_limit_pullback.Models.Strategy.{ConditionScore, validate_condition_ids}

-- a dict from names to `bool | None`, in insertion order
abbrev pub Results : Type 0
Results = List (String × Option Bool)

abbrev pub is_matched : Option Bool → Bool
is_matched (some true) = true
is_matched _ = false

abbrev pub is_failed : Option Bool → Bool
is_failed (some false) = true
is_failed _ = false

abbrev pub is_unavailable : Option Bool → Bool
is_unavailable none = true
is_unavailable (some _) = false

-- `name for name, result in results.items() if …`
unfoldable pub names_where : (Option Bool → Bool) → Results → List String
names_where test [] = []
names_where test ((name, result) ∷ rest) =
    if test result then name ∷ names_where test rest else names_where test rest

unfoldable pub condition_score : Results → ConditionScore
condition_score results = record {
  matched = sorted (names_where is_matched results);
  failed = sorted (names_where is_failed results);
  unavailable = sorted (names_where is_unavailable results);
}

unfoldable pub conditions : Results → Outcome ConditionScore
conditions results = checked "ConditionScore" validate_condition_ids (condition_score results)
