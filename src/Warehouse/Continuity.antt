-- ===== src/Warehouse/Continuity.antt =====
-- warehouse/continuity.py: `build_sequential_preclose` and `previous_close_index`. The rows are an
-- association list from code and session; of a row, the fields that the functions read or set.
use a_share_limit_pullback.Base.{
  ◌&&◌, ◌==◌, leb, String, str_eq, Option, none, some, List, [], ◌∷◌, ◌++◌, map, if◌then◌else◌, any,
  first, sorted, sort_by, distinct,
}
use mathlib.Core.Option
use a_share_limit_pullback.Dates.{Date}
use a_share_limit_pullback.Decimal.{
  Decimal, decimal, nought, ◌≤𝔻◌, ◌<𝔻◌, ◌-𝔻◌, ◌*𝔻◌, ◌/𝔻◌, quantize,
}

pub record StagedRow : Type 0 where
  pub close : Decimal
  pub preclose : Option Decimal
  pub preclose_status : String
  pub pct_change : Option Decimal

abbrev pub Key : Type 0
Key = String × Date

unfoldable pub pct_change_of : Decimal → Decimal → Option Decimal
pct_change_of close preclose =
    if preclose ≤𝔻 nought
    then none
    else some (quantize ((close -𝔻 preclose) /𝔻 preclose *𝔻 decimal 100 0) 4)

-- `sorted(set(dates))`
unfoldable pub distinct_dates : List Date → List Date
distinct_dates [] = []
distinct_dates (d ∷ ds) =
    let rest = distinct_dates ds in if any (λ e. e == d) rest then rest else d ∷ rest

unfoldable pub ordered : List Date → List Date
unfolding distinct_dates
ordered sessions = sort_by leb (distinct_dates sessions)

-- `d.get(key)`
abbrev pub row_at : List (Key × StagedRow) → String → Date → Option StagedRow
row_at rows code session =
    Option.map (λ r. r.1) (first (λ r. str_eq r.0.0 code && r.0.1 == session) rows)

abbrev pub seed_of : List (String × Decimal) → String → Option Decimal
seed_of seeds code = Option.map (λ s. s.1) (first (λ s. str_eq s.0 code) seeds)

unfoldable pub codes_of : List (Key × StagedRow) → List (String × Decimal) → List String
codes_of rows seeds = sorted (distinct (map (λ s. s.0) seeds ++ map (λ r. r.0.0) rows))

unfoldable pub attached : Option Decimal → StagedRow → StagedRow
attached none row = record row {
  preclose = none;
  preclose_status = "MISSING_PREDECESSOR";
  pct_change = none;
}
attached (some current) row = record row {
  preclose = some current;
  preclose_status = "OK";
  pct_change = pct_change_of row.close current;
}

abbrev pub next_close : Option Decimal → StagedRow → Option Decimal
next_close current row = if nought <𝔻 row.close then some row.close else current

-- `index[key] = current`, when there is one
abbrev pub index_entry : String → Date → Option Decimal → List (Key × Decimal)
index_entry code session none = []
index_entry code session (some current) = ((code, session), current) ∷ []

module _ (rows : List (Key × StagedRow)) (code : String) where
  unfoldable pub preclose_of : Option Decimal → List Date → List (Key × StagedRow)
  preclose_of current [] = []
  preclose_of current (session ∷ sessions) = elim (row_at rows code session) [
    | none ↦ preclose_of current sessions
    | some row ↦
        ((code, session), attached current row) ∷ preclose_of (next_close current row) sessions
  ]

  unfoldable pub index_of : Option Decimal → List Date → List (Key × Decimal)
  index_of current [] = []
  index_of current (session ∷ sessions) = elim (row_at rows code session) [
    | none ↦ index_of current sessions
    | some row ↦ index_entry code session current ++ index_of (next_close current row) sessions
  ]

-- the loop over the codes
abbrev pub each_code {ℓ} : {A : Type ℓ} → (String → List A) → List String → List A
each_code f [] = []
each_code f (code ∷ codes) = f code ++ each_code f codes

module _ (rows : List (Key × StagedRow)) (seeds : List (String × Decimal))
    (sessions : List Date) where
  unfoldable pub build_sequential_preclose : List (Key × StagedRow)
  build_sequential_preclose =
      each_code (λ code. preclose_of rows code (seed_of seeds code) (ordered sessions))
        (codes_of rows seeds)

  unfoldable pub previous_close_index : List (Key × Decimal)
  previous_close_index =
      each_code (λ code. index_of rows code (seed_of seeds code) (ordered sessions))
        (codes_of rows seeds)
