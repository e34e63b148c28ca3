-- ===== src/Warehouse/Predecessor.antt =====
-- warehouse/continuity.py: which close is the previous close of a row.
use a_share_limit_pullback.Base.{
  Option, none, some, List, [], ◌∷◌, ◌++◌, Bool, true, false, String, ◌≡◌, refl, ap, ◌∙◌,
  if◌then◌else◌,
}
use a_share_limit_pullback.Dates.{Date}
use a_share_limit_pullback.Decimal.{Decimal, nought, ◌<𝔻◌}
use a_share_limit_pullback.Warehouse.Continuity.{
  Key, StagedRow, attached, next_close, preclose_of, row_at,
}

abbrev positive_close : StagedRow → List Decimal
positive_close row = if nought <𝔻 row.close then row.close ∷ [] else []

-- The positive closes of a code in the sessions, and the last of them, or the seed.
abbrev pub positive_closes : List (Key × StagedRow) → String → List Date → List Decimal
positive_closes rows code [] = []
positive_closes rows code (session ∷ sessions) = elim (row_at rows code session) [
  | none ↦ positive_closes rows code sessions
  | some row ↦ positive_close row ++ positive_closes rows code sessions
]

abbrev pub last_or : Option Decimal → List Decimal → Option Decimal
last_or seed [] = seed
last_or seed (close ∷ closes) = last_or (some close) closes

last_or-next_close :
    (seed : Option Decimal) (row : StagedRow) (closes : List Decimal)
    → last_or seed (positive_close row ++ closes) ≡ last_or (next_close seed row) closes
last_or-next_close seed row closes = by_test (nought <𝔻 row.close)
  where
    by_test :
        (b : Bool)
        → last_or seed ((if b then row.close ∷ [] else []) ++ closes)
          ≡ last_or (if b then some row.close else seed) closes
    by_test true = refl
    by_test false = refl

preclose-attached :
    (current : Option Decimal) (row : StagedRow) → (attached current row).preclose ≡ current
unfolding attached
preclose-attached none row = refl
preclose-attached (some close) row = refl

module _ (rows : List (Key × StagedRow)) (code : String) where
  preclose_of-append :
      (seed : Option Decimal) (before after : List Date)
      → preclose_of rows code seed (before ++ after)
        ≡ preclose_of rows code seed before
          ++ preclose_of rows code (last_or seed (positive_closes rows code before)) after
  unfolding preclose_of
  preclose_of-append seed [] after = refl
  preclose_of-append seed (session ∷ before) after =
      elim (row_at rows code session)
        as (λ r.
          elim r [
            | none ↦ preclose_of rows code seed (before ++ after)
            | some row ↦
                ((code, session), attached seed row)
                ∷ preclose_of rows code (next_close seed row) (before ++ after)
          ]
          ≡ elim r [
            | none ↦ preclose_of rows code seed before
            | some row ↦
                ((code, session), attached seed row)
                ∷ preclose_of rows code (next_close seed row) before
          ]
            ++ preclose_of rows code
                (last_or seed (elim r [
                  | none ↦ positive_closes rows code before
                  | some row ↦ positive_close row ++ positive_closes rows code before
                ]))
                after) [
                  | none ↦ preclose_of-append seed before after
                  | some row ↦ rw (last_or-next_close seed row (positive_closes rows code before)) (
                      ap (λ l. ((code, session), attached seed row) ∷ l)
                        (preclose_of-append (next_close seed row) before after))
                ]

  preclose_of-at :
      (current : Option Decimal) (session : Date) (row : StagedRow) (after : List Date)
      → row_at rows code session ≡ some row
      → preclose_of rows code current (session ∷ after)
        ≡ ((code, session), attached current row)
          ∷ preclose_of rows code (next_close current row) after
  unfolding preclose_of
  preclose_of-at current session row after e =
      ap
        (λ r. elim r [
          | none ↦ preclose_of rows code current after
          | some row ↦
              ((code, session), attached current row)
              ∷ preclose_of rows code (next_close current row) after
        ])
        e

  -- In the rows of a code, a session that has a row follows the rows of the sessions before it, and
  -- its previous close is the last positive close of the code in those, or the seed's where there is
  -- none.
  pub preclose_of-preclose :
      (seed : Option Decimal) (before after : List Date) (session : Date) (row : StagedRow)
      → row_at rows code session ≡ some row
      → (built : StagedRow) × (rest : List (Key × StagedRow)) × (preclose_of rows code seed
            (before ++ session ∷ after)
          ≡ preclose_of rows code seed before ++ ((code, session), built) ∷ rest)
        × (built.preclose ≡ last_or seed (positive_closes rows code before))
  preclose_of-preclose seed before after session row e = (
    attached (last_or seed (positive_closes rows code before)) row,
    preclose_of rows code (next_close (last_or seed (positive_closes rows code before)) row) after,
    preclose_of-append seed before (session ∷ after)
        ∙ ap (λ l. preclose_of rows code seed before ++ l)
            (preclose_of-at (last_or seed (positive_closes rows code before)) session row after e),
    preclose-attached _ row,
  )
