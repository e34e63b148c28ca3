-- ===== src/Warehouse/Mirror.antt =====
-- warehouse/continuity.py: the index that the validator reads mirrors the rows that are built.
use a_share_limit_pullback.Base.{
  Option, none, some, List, [], ◌∷◌, ◌++◌, String, ◌≡◌, refl, ap, ◌∙◌, Option-cases, inl, inr,
}
use a_share_limit_pullback.Dates.{Date}
use a_share_limit_pullback.Decimal.{Decimal}
use a_share_limit_pullback.Warehouse.Continuity.{
  Key, StagedRow, attached, build_sequential_preclose, codes_of, each_code, index_entry, index_of,
  next_close, ordered, preclose_of, previous_close_index, row_at, seed_of,
}

-- The previous closes of the rows that have one.
abbrev pub precloses : List (Key × StagedRow) → List (Key × Decimal)
precloses [] = []
precloses (r ∷ rows) = elim r.1.preclose [
  | none ↦ precloses rows
  | some close ↦ (r.0, close) ∷ precloses rows
]

precloses-append :
    (xs ys : List (Key × StagedRow)) → precloses (xs ++ ys) ≡ precloses xs ++ precloses ys
precloses-append [] ys = refl
precloses-append (x ∷ xs) ys = elim (Option-cases x.1.preclose) [
  | inl e ↦ rw e (precloses-append xs ys)
  | inr (close, e) ↦ rw e (ap (λ l. (x.0, close) ∷ l) (precloses-append xs ys))
]

entry :
    (code : String) (session : Date) (current : Option Decimal) (row : StagedRow)
    → precloses (((code, session), attached current row) ∷ []) ≡ index_entry code session current
unfolding attached
entry code session none row = refl
entry code session (some close) row = refl

module _ (rows : List (Key × StagedRow)) (code : String) where
  precloses-preclose_of :
      (current : Option Decimal) (sessions : List Date)
      → precloses (preclose_of rows code current sessions) ≡ index_of rows code current sessions
  unfolding preclose_of index_of
  precloses-preclose_of current [] = refl
  precloses-preclose_of current (session ∷ sessions) =
      elim (row_at rows code session)
        as (λ r.
          precloses (elim r [
            | none ↦ preclose_of rows code current sessions
            | some row ↦
                ((code, session), attached current row)
                ∷ preclose_of rows code (next_close current row) sessions
          ])
          ≡ elim r [
            | none ↦ index_of rows code current sessions
            | some row ↦
                index_entry code session current
                ++ index_of rows code (next_close current row) sessions
          ]) [
            | none ↦ precloses-preclose_of current sessions
            | some row ↦
                precloses-append (((code, session), attached current row) ∷ [])
                  (preclose_of rows code (next_close current row) sessions)
                ∙ ap (λ l. l ++ precloses (preclose_of rows code (next_close current row) sessions))
                    (entry code session current row)
                ∙ ap (λ l. index_entry code session current ++ l)
                    (precloses-preclose_of (next_close current row) sessions)
          ]

precloses-each_code :
    (f : String → List (Key × StagedRow)) (g : String → List (Key × Decimal))
    → ((code : String) → precloses (f code) ≡ g code)
    → (codes : List String) → precloses (each_code f codes) ≡ each_code g codes
precloses-each_code f g h [] = refl
precloses-each_code f g h (code ∷ codes) =
    precloses-append (f code) (each_code f codes)
    ∙ ap (λ l. l ++ precloses (each_code f codes)) (h code)
    ∙ ap (λ l. g code ++ l) (precloses-each_code f g h codes)

-- The index of the validator has exactly the previous closes of the rows that are built, for the
-- rows that have one, in their order.
pub precloses-build_sequential_preclose :
    (rows : List (Key × StagedRow)) (seeds : List (String × Decimal)) (sessions : List Date)
    → precloses (build_sequential_preclose rows seeds sessions)
      ≡ previous_close_index rows seeds sessions
unfolding build_sequential_preclose previous_close_index
precloses-build_sequential_preclose rows seeds sessions =
    precloses-each_code _ _
      (λ code. precloses-preclose_of rows code (seed_of seeds code) (ordered sessions))
      (codes_of rows seeds)
