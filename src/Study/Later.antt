-- ===== src/Study/Later.antt =====
-- The bars after a signal, found by its index or by its date.
use a_share_limit_pullback.Base.{
  ℕ, suc, ◌+◌, ◌≤◌, ◌<◌, true, false, Option, none, some, List, [], ◌∷◌, ◌==◌, drop, get_num, ◌≡◌,
  refl, ◌∙◌, arith,
}
use native.Mathlib.Decide.{dec_lt}
use a_share_limit_pullback.Dates.{Date}
use a_share_limit_pullback.Models.Market.{DailyBar}
use a_share_limit_pullback.Study.Event.{date_index, future_of, later_than}

-- the dates increase, and all are after `day`
unfoldable pub IncreasesFrom : Date → List DailyBar → Type 0
IncreasesFrom day [] = Unit
IncreasesFrom day (bar ∷ bars) = (day < bar.trade_date) × IncreasesFrom bar.trade_date bars

later_than-all :
    (day from : Date) (bars : List DailyBar)
    → day ≤ from
    → IncreasesFrom from bars
    → later_than day bars ≡ bars
unfolding IncreasesFrom
later_than-all day from [] h up = refl
later_than-all day from (bar ∷ bars) h (first, up) =
    ground (arith, later_than-all day bar.trade_date bars (omega (arith, h, first)) up)

module _ (day : Date) where
  -- A day that is before all bars is not in their index.
  get_num-before :
      (i : ℕ) (from : Date) (bars : List DailyBar) (entries : List (Date × ℕ))
      → day ≤ from
      → IncreasesFrom from bars
      → get_num day (date_index i bars entries) ≡ get_num day entries
  unfolding date_index IncreasesFrom
  get_num-before i from [] entries h up = refl
  get_num-before i from (bar ∷ bars) entries h (first, up) =
      get_num-before (suc i) bar.trade_date bars ((bar.trade_date, i) ∷ entries)
        (omega (arith, h, first)) up
      ∙ ground (arith, h, first)

  -- what an index finds at the day: the number of the bars until it, from `i` on
  Finds : ℕ → List DailyBar → Option ℕ → Type 0
  Finds i bars none = Unit
  Finds i bars (some k) = (j : ℕ) × (k ≡ i + j) × (drop (suc j) bars ≡ later_than day bars)

  Finds-next :
      (i : ℕ) (bar : DailyBar) (bars : List DailyBar) (o : Option ℕ)
      → bar.trade_date ≤ day
      → Finds (suc i) bars o
      → Finds i (bar ∷ bars) o
  unfolding Finds
  Finds-next i bar bars none h found = tt
  Finds-next i bar bars (some k) h (j, e, same) =
      (suc j, omega (arith, e), same ∙ ground (arith, h))

  get_num-Finds :
      (i : ℕ) (from : Date) (bars : List DailyBar) (entries : List (Date × ℕ))
      → IncreasesFrom from bars
      → get_num day entries ≡ none
      → Finds i bars (get_num day (date_index i bars entries))
  unfolding date_index IncreasesFrom Finds
  get_num-Finds i from [] entries up e = rw e tt
  get_num-Finds i from (bar ∷ bars) entries (first, up) e = elim (dec_lt day bar.trade_date) [
    | yes before ↦
        rw
          (
            get_num-before (suc i) bar.trade_date bars ((bar.trade_date, i) ∷ entries)
                (omega (arith, before)) up,
            not_equal before,
            e,
          )
          tt
    | no after ↦ elim (dec_lt bar.trade_date day) [
      | yes before ↦ Finds-next i bar bars _ (omega arith) (
          get_num-Finds (suc i) bar.trade_date bars ((bar.trade_date, i) ∷ entries) up
            (not_in before))
      | no same ↦
          rw
            (
              get_num-before (suc i) bar.trade_date bars ((bar.trade_date, i) ∷ entries)
                  (omega arith) up,
              found (omega arith),
            )
            (
              0,
              omega arith,
              ground (arith, later_than-all day bar.trade_date bars (omega arith) up),
            )
    ]
  ]
    where
      not_equal : day < bar.trade_date → (bar.trade_date == day) ≡ false
      not_equal h = ground arith

      not_in : bar.trade_date < day → get_num day ((bar.trade_date, i) ∷ entries) ≡ none
      not_in h = ground (arith, e)

      found : bar.trade_date ≡ day → (bar.trade_date == day) ≡ true
      found h = ground arith

from_found :
    (day : Date) (bars : List DailyBar) (k : ℕ)
    → Finds day 0 bars (some k)
    → drop (k + 1) bars ≡ later_than day bars
unfolding Finds
from_found day bars k (j, e, same) = rw (next) same
  where
    next : k + 1 ≡ suc j
    next = omega (arith, e)

-- On bars whose dates increase, the bars after a signal are those of a later date, whether the
-- signal has a bar, by whose index they are taken, or not.
pub future_of-later_than :
    (bars : List DailyBar) (signal_date : Date)
    → IncreasesFrom 0 bars
    → future_of bars signal_date ≡ later_than signal_date bars
unfolding future_of
future_of-later_than bars signal_date up =
    by_index _ (get_num-Finds signal_date 0 0 bars [] up refl)
  where
    by_index :
        (o : Option ℕ)
        → Finds signal_date 0 bars o
        → elim o [ some k ↦ drop (k + 1) bars | none ↦ later_than signal_date bars ]
          ≡ later_than signal_date bars
    by_index none h = refl
    by_index (some k) h = from_found signal_date bars k h
