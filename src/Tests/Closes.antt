-- ===== src/Tests/Closes.antt =====
-- The previous closes of two codes, one without a seed.
use a_share_limit_pullback.Base.{ℕ, none, some, String, List, [], ◌∷◌, ◌++◌, map, ◌≡◌, refl}
use a_share_limit_pullback.Dates.{Date}
use a_share_limit_pullback.Decimal.{Decimal, decimal}
use a_share_limit_pullback.Tests.Engine.{engine}
use a_share_limit_pullback.Warehouse.Continuity.{
  Key, StagedRow, build_sequential_preclose, preclose_of, previous_close_index,
}
use a_share_limit_pullback.Warehouse.Mirror.{precloses, precloses-build_sequential_preclose}
use a_share_limit_pullback.Warehouse.Predecessor.{last_or, positive_closes, preclose_of-preclose}

abbrev staged : ℕ → StagedRow
staged close = record {
  close = decimal close 2;
  preclose = none;
  preclose_status = "";
  pct_change = none;
}

abbrev rows : List (Key × StagedRow)
rows =
    (("600468", 739804), staged 1050)
    ∷ (("600468", 739803), staged 1100)
    ∷ (("000001", 739803), staged 900)
    ∷ (("000001", 739804), staged 910)
    ∷ []

abbrev seeds : List (String × Decimal)
seeds = ("600468", decimal 1000 2) ∷ []

abbrev sessions : List Date
sessions = 739804 ∷ 739803 ∷ 739804 ∷ []

built_precloses :
    map (λ r. r.1.preclose) (build_sequential_preclose rows seeds sessions)
    ≡ none ∷ some (decimal 900 2) ∷ some (decimal 1000 2) ∷ some (decimal 1100 2) ∷ []
unfolding engine
built_precloses = refl

precloses-build_sequential_preclose_example :
    precloses (build_sequential_preclose rows seeds sessions)
    ≡ previous_close_index rows seeds sessions
precloses-build_sequential_preclose_example =
    precloses-build_sequential_preclose rows seeds sessions

preclose_of-preclose_example :
    (built : StagedRow) × (rest : List (Key × StagedRow)) × (preclose_of rows "600468"
        (some (decimal 1000 2))
        ((739803 ∷ []) ++ 739804 ∷ [])
      ≡ preclose_of rows "600468" (some (decimal 1000 2)) (739803 ∷ [])
        ++ (("600468", 739804), built) ∷ rest)
    × (built.preclose
        ≡ last_or (some (decimal 1000 2)) (positive_closes rows "600468" (739803 ∷ [])))
preclose_of-preclose_example =
    preclose_of-preclose rows "600468" (some (decimal 1000 2)) (739803 ∷ []) [] 739804 (staged 1050)
      refl
