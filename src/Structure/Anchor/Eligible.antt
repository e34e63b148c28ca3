-- ===== src/Structure/Anchor/Eligible.antt =====
-- What the tests of an anchor's bar say, in terms of prices, days and the pool record.
use a_share_limit_pullback.Base.{
  ◌↔◌, is_some, ◌++◌, ℕ, ◌+◌, ◌-◌, ◌≤◌, Bool, true, false, not, ◌&&◌, str_eq, ◌==◌, leb, ltb,
  Option, none, some, List, [], ◌∷◌, length, keep, indices_where, get_elem?, if◌then◌else◌,
  or_raise, index_error, ok, Bool-cases, inl, inr, ◌≡◌, refl, sym, ap, ◌∙◌, arith,
}
use a_share_limit_pullback.Dates.{Date}
use a_share_limit_pullback.Decimal.{Decimal, ◌≤𝔻◌, ◌-𝔻◌, absolute}
use a_share_limit_pullback.Models.Config.{StrategyConfig}
use a_share_limit_pullback.Models.Enums.{ScoreProfile}
use a_share_limit_pullback.Models.Market.{DailyBar, LimitUpRecord}
use a_share_limit_pullback.Structure.Anchor.{are_apart, pool_record_of, inferred_first_board}
use a_share_limit_pullback.Structure.Anchor.Recent.{find_last-keep}
use a_share_limit_pullback.Structure.Limits.{
  pool_record_is_full, is_limit_close, theoretical_limit_price,
}
use a_share_limit_pullback.Structure.Prices.{at_price}

pub or_raise-ok : {A : Type 0} (o : Option A) {a : A} → or_raise o index_error ≡ ok a → o ≡ some a
or_raise-ok none h = cc
or_raise-ok (some x) h = cc

-- the distance of a value to a price is at most the tolerance
abbrev pub is_at : Decimal → StrategyConfig → Decimal → Bool
is_at price config value = absolute (value -𝔻 price) ≤𝔻 config.anchor.limit_price_tolerance

abbrev pub closes_at : StrategyConfig → DailyBar → Bool
closes_at config bar = is_at (theoretical_limit_price bar config) config bar.close

pub nine :
    (a b c d e f g h i : Bool)
    → (a && not b && not c && not d && not e && f && g && not h && not i) ≡ true
    → (a ≡ true)
      × (b ≡ false)
      × (c ≡ false)
      × (d ≡ false)
      × (e ≡ false)
      × (f ≡ true)
      × (g ≡ true)
      × (h ≡ false)
      × (i ≡ false)
nine a b c d e f g h i k = ground (arith, k)

pub first_two : (a b c : Bool) → (a && b && c) ≡ true → (a && b) ≡ true
first_two a b c h = ground (arith, h)

pub required : (r x : Bool) → (r && not x) ≡ false → r ≡ true → x ≡ true
required r x h k = ground (arith, h, k)

pub refused : (r x : Bool) → (r && x) ≡ false → r ≡ true → not x ≡ true
refused r x h k = ground (arith, h, k)

pub length-indices_where :
    {A : Type 0} (p : A → Bool) (i : ℕ) (xs : List A)
    → length (indices_where p i xs) ≡ length (keep p xs)
length-indices_where p i [] = refl
length-indices_where p i (x ∷ xs) = ground (arith, length-indices_where p (i + 1) xs)

pub before_of :
    (config : StrategyConfig) (ordered : List DailyBar) (index : ℕ)
    → inferred_first_board config ordered index ≡ true
    → (before : DailyBar) × (get_elem? ordered (index - 1) ≡ some before)
      × (1 ≤ index)
      × (closes_at config before ≡ false)
unfolding inferred_first_board is_limit_close at_price
before_of config ordered index h = by_day (get_elem? ordered (index - 1)) refl h
  where
    by_test : (a b : Bool) → (a && not b) ≡ true → (a ≡ true) × (b ≡ false)
    by_test a b k = ground (arith, k)

    by_day :
        (o : Option DailyBar)
        → get_elem? ordered (index - 1) ≡ o
        → elim o [ none ↦ false | some before ↦ ltb 0 index && not (closes_at config before) ]
          ≡ true
        → (before : DailyBar) × (get_elem? ordered (index - 1) ≡ some before)
          × (1 ≤ index)
          × (closes_at config before ≡ false)
    by_day none e k = cc
    by_day (some before) e k =
        let (x, y) = by_test (ltb 0 index) (closes_at config before) k in
        (before, e, ground (arith, x), y)

-- the seal of a full record
pub seal_cases :
    (cutoff : ℕ) (full : Bool) (n s : Option ℕ) (sealed : Option Bool)
    → full ≡ true
    → (if not full then some none else elim n [
      | none ↦ none
      | some k ↦ elim s [
        | none ↦ none
        | some time ↦ if k == 1 && leb time cutoff then some (some true) else none
      ]
    ])
      ≡ some sealed
    → (sealed ≡ some true) × (n ≡ some 1) × (time : ℕ) × (s ≡ some time) × (time ≤ cutoff)
seal_cases cutoff false n s sealed f h = cc
seal_cases cutoff true none s sealed f h = cc
seal_cases cutoff true (some k) none sealed f h = cc
seal_cases cutoff true (some k) (some time) sealed f h =
    elim (Bool-cases (k == 1 && leb time cutoff)) [
      | inl e ↦ (
        cc (sym (ap (λ b. if b then some (some true) else none) e) ∙ h),
        ap some (ground (arith, e)),
        time,
        refl,
        ground (arith, e),
      )
      | inr e ↦ cc (sym (ap (λ b. if b then some (some true) else none) e) ∙ h)
    ]

pub found_record :
    (limit_pool : List LimitUpRecord) (as_of : Date) (bar : DailyBar) (r : LimitUpRecord)
    → pool_record_of limit_pool as_of bar ≡ some r
    → (leb r.trade_date as_of ≡ true)
      × ((r.trade_date == bar.trade_date && str_eq r.code bar.code) ≡ true)
unfolding pool_record_of
found_record limit_pool as_of bar r h =
    let (kept, same) = find_last-keep _ _ limit_pool r h in (kept, same)

pub kept_record :
    (full : Bool) (o : Option LimitUpRecord) (r : LimitUpRecord)
    → (if full then o else none) ≡ some r
    → (full ≡ true) × (o ≡ some r)
kept_record true o r h = (refl, h)
kept_record false o r h = cc

apart_tail : (i : ℕ) (rest : List ℕ) → are_apart (i ∷ rest) ≡ true → are_apart rest ≡ true
unfolding are_apart
apart_tail i [] h = refl
apart_tail i (j ∷ rest) h = ground (arith, h)

adjacent : (i : ℕ) (rest : List ℕ) → are_apart (i ∷ (i + 1) ∷ rest) ≡ false
unfolding are_apart
adjacent i rest = ground arith

-- No two neighbours meet a test whose indices are apart.
pub are_apart-neighbours :
    {A : Type 0} (p : A → Bool) (i : ℕ) (before : List A) (x y : A) (after : List A)
    → are_apart (indices_where p i (before ++ x ∷ y ∷ after)) ≡ true
    → (p x && p y) ≡ false
are_apart-neighbours p i [] x y after h = by_tests (p x) (p y) h
  where
    by_tests :
        (a b : Bool)
        → are_apart (
            if a
            then i
              ∷ (if b
                  then (i + 1) ∷ indices_where p (i + 1 + 1) after
                  else indices_where p (i + 1 + 1) after)
            else (if b
                then (i + 1) ∷ indices_where p (i + 1 + 1) after
                else indices_where p (i + 1 + 1) after))
          ≡ true
        → (a && b) ≡ false
    by_tests true true k = cc (k, adjacent i (indices_where p (i + 1 + 1) after))
    by_tests true false k = refl
    by_tests false b k = refl
are_apart-neighbours p i (z ∷ before) x y after h =
    are_apart-neighbours p (i + 1) before x y after (by_test (p z) h)
  where
    rest : List ℕ
    rest = indices_where p (i + 1) (before ++ x ∷ y ∷ after)

    by_test : (b : Bool) → are_apart (if b then i ∷ rest else rest) ≡ true → are_apart rest ≡ true
    by_test true k = apart_tail i rest k
    by_test false k = k

no_full_none : pool_record_is_full none ≡ true → false ≡ true
unfolding pool_record_is_full
no_full_none h = h

pub profile_cases :
    (full : Bool) (o : Option LimitUpRecord)
    → pool_record_is_full o ≡ full
    → ((if full then ScoreProfile.full else ScoreProfile.price_only) ≡ ScoreProfile.full)
      ↔ (is_some (if full then o else none) ≡ true)
profile_cases true (some r) e = (λ h. refl, λ h. refl)
profile_cases true none e = cc (no_full_none e)
profile_cases false o e = (λ h. cc, λ h. cc)
