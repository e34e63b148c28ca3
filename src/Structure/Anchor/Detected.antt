-- ===== src/Structure/Anchor/Detected.antt =====
-- The anchor that is detected, in terms of the bars.
use a_share_limit_pullback.Base.{
  ◌∷◌, is_some, indices_where, ◌++◌, ◌↔◌, ℕ, suc, ◌+◌, ◌-◌, ◌≤◌, Bool, true, false, ◌&&◌, str_eq,
  ◌==◌, leb, Option, none, some, List, length, drop, take, keep, All, last?, get_elem?, or_raise,
  index_error, ok, Option-cases, ◌>>=◌, inl, inr, >>=-eq-ok, ◌≡◌, refl, sym, ap, ◌∙◌, subst, arith,
}
use a_share_limit_pullback.Dates.{Date}
use a_share_limit_pullback.Decimal.{nought, ◌<𝔻◌, ◌-𝔻◌}
use a_share_limit_pullback.Features.Bars.{bars_until}
use a_share_limit_pullback.Models.Config.{StrategyConfig}
use a_share_limit_pullback.Models.Enums.{ScoreProfile}
use a_share_limit_pullback.Models.Market.{DailyBar, LimitUpRecord}
use a_share_limit_pullback.Models.Strategy.{AnchorEvaluation}
use a_share_limit_pullback.Structure.Anchor.{
  are_apart, recent_limit_indices, is_eligible_anchor, is_recent_limit, anchor_evaluation,
  seal_check, pool_record_of, examine_bar, detect_anchor, not_st, window_limit_indices,
}
use a_share_limit_pullback.Structure.Anchor.Eligible.{
  are_apart-neighbours, profile_cases, or_raise-ok, is_at, closes_at, nine, first_two, required,
  refused, length-indices_where, before_of, seal_cases, found_record, kept_record,
}
use a_share_limit_pullback.Structure.Anchor.Recent.{
  IsLast, drop-drop, get_elem?-drop, last?-indices_where,
}
use a_share_limit_pullback.Structure.Limits.{
  is_limit_close, is_one_word_limit, is_t_word_limit, pool_record_is_full, theoretical_limit_price,
}
use a_share_limit_pullback.Structure.Prices.{at_price}

module _ (config : StrategyConfig) (as_of : Date) (limit_pool : List LimitUpRecord) where
  -- what the bar of an anchor is, and what its evaluation says
  pub record IsAnchor (ordered : List DailyBar) (a : AnchorEvaluation) : Type 0 where
    pub index : ℕ
    pub bar : DailyBar
    pub is_bar : get_elem? ordered index ≡ some bar
    pub recent : length ordered ≤ index + config.anchor.lookback_trade_days
    pub later :
        All
          (λ b. (b.trade_status && not_st b.is_st && closes_at config b) ≡ false)
          (drop (suc index) ordered)
    pub traded : (bar.trade_status && not_st bar.is_st) ≡ true
    pub dated : a.snapshot.anchor_date ≡ bar.trade_date
    pub frozen_as_of : a.snapshot.frozen_as_of ≡ bar.trade_date
    pub priced : a.limit_price ≡ theoretical_limit_price bar config
    pub anchor_price : a.snapshot.anchor_price ≡ a.limit_price
    pub at_limit : is_at a.limit_price config bar.close ≡ true
    pub not_one_word :
        (is_at a.limit_price config bar.open_price
          && is_at a.limit_price config bar.high
          && is_at a.limit_price config bar.low
          && is_at a.limit_price config bar.close)
        ≡ false
    pub not_t_word :
        (is_at a.limit_price config bar.open_price
          && is_at a.limit_price config bar.high
          && is_at a.limit_price config bar.close
          && bar.low <𝔻 a.limit_price -𝔻 config.anchor.limit_price_tolerance)
        ≡ false
    pub has_volume : config.anchor.require_positive_volume ≡ true → (nought <𝔻 bar.volume) ≡ true
    pub has_amount : config.anchor.require_positive_amount ≡ true → (nought <𝔻 bar.amount) ≡ true
    pub counted :
        a.recent_limit_count
        ≡ length (
            keep
              (closes_at config)
              (drop (index + 1 - config.anchor.recent_limit_window) (take (index + 1) ordered)))
    pub at_least : config.anchor.recent_limit_count_min ≤ a.recent_limit_count
    pub at_most : a.recent_limit_count ≤ config.anchor.recent_limit_count_max
    pub apart :
        config.anchor.require_non_consecutive ≡ true
        → (before : List DailyBar) (x y : DailyBar) (after : List DailyBar)
        → drop (index + 1 - config.anchor.recent_limit_window) (take (index + 1) ordered)
          ≡ before ++ x ∷ y ∷ after
        → (closes_at config x && closes_at config y) ≡ false
    pub flags :
        (a.is_limit_close ≡ true)
        × (a.is_one_word ≡ false)
        × (a.is_t_word ≡ false)
        × (config.anchor.require_non_consecutive ≡ true → a.recent_limits_non_consecutive ≡ true)
        × (config.anchor.require_first_board ≡ true → a.is_first_board ≡ true)
    pub profiled : (a.profile ≡ ScoreProfile.full) ↔ (is_some a.pool_record ≡ true)
    pub first_board :
        config.anchor.require_first_board ≡ true
        → (before : DailyBar) × (get_elem? ordered (index - 1) ≡ some before)
          × (1 ≤ index)
          × (closes_at config before ≡ false)
    pub sealed :
        (r : LimitUpRecord)
        → a.pool_record ≡ some r
        → (a.seal_before_cutoff ≡ some true)
          × (r.consecutive_count ≡ some 1)
          × (leb r.trade_date as_of ≡ true)
          × ((r.trade_date == bar.trade_date && str_eq r.code bar.code) ≡ true)
          × (time : ℕ) × (r.first_seal_time ≡ some time)
          × (time ≤ config.anchor.first_seal_cutoff)

module _ (config : StrategyConfig) (as_of : Date) (limit_pool : List LimitUpRecord)
    (ordered : List DailyBar) where
  -- where the last of the recent limit-ups stands
  record Stands (index : ℕ) : Type 0 where
    bar : DailyBar
    is_bar : get_elem? ordered index ≡ some bar
    recent : length ordered ≤ index + config.anchor.lookback_trade_days
    holds : is_recent_limit config bar ≡ true
    later : All (λ b. is_recent_limit config b ≡ false) (drop (suc index) ordered)

  last_limit : (index : ℕ) → last? (recent_limit_indices config ordered) ≡ some index → Stands index
  unfolding recent_limit_indices
  last_limit index h =
      let start : ℕ = length ordered - config.anchor.lookback_trade_days in
      let l : IsLast (is_recent_limit config) start (drop start ordered) index =
        last?-indices_where (is_recent_limit config) start (drop start ordered) index h in
      let place : start + l.offset ≡ index = sym l.at in
      let behind : start + suc l.offset ≡ suc index = omega (arith, l.at) in
      record {
        bar = l.item;
        is_bar =
            ap (get_elem? ordered) (sym place)
            ∙ sym (get_elem?-drop start l.offset ordered)
            ∙ l.is_item;
        recent = omega (arith, l.at);
        holds = l.holds;
        later =
            subst (All (λ b. is_recent_limit config b ≡ false))
              (drop-drop start (suc l.offset) ordered ∙ ap (λ n. drop n ordered) behind) l.later;
      }

  evaluated :
      (index : ℕ) (s : Stands index) (sealed : Option Bool)
      → is_eligible_anchor config ordered index s.bar ≡ true
      → seal_check config (pool_record_of limit_pool as_of s.bar) ≡ some sealed
      → IsAnchor config as_of limit_pool ordered (
          anchor_evaluation config ordered index s.bar
            (pool_record_of limit_pool as_of s.bar)
            sealed)
  unfolding is_eligible_anchor anchor_evaluation is_limit_close is_one_word_limit is_t_word_limit
      at_price window_limit_indices seal_check
  evaluated index s sealed eligible seal =
      let (close, word, t_word, volume, amount, low, high, consecutive, board) =
        nine _ _ _ _ _ _ _ _ _ eligible in
      record {
        index = index;
        bar = s.bar;
        is_bar = s.is_bar;
        recent = s.recent;
        later = s.later;
        traded =
            first_two s.bar.trade_status (not_st s.bar.is_st) (is_limit_close s.bar config) s.holds;
        dated = refl;
        frozen_as_of = refl;
        priced = refl;
        anchor_price = refl;
        at_limit = close;
        not_one_word = ground (arith, word);
        not_t_word = t_word;
        has_volume = refused _ _ volume;
        has_amount = refused _ _ amount;
        counted =
            length-indices_where (λ x. is_limit_close x config)
              (index + 1 - config.anchor.recent_limit_window)
              (drop (index + 1 - config.anchor.recent_limit_window) (take (index + 1) ordered));
        at_least = ground (arith, low);
        at_most = ground (arith, high);
        apart = λ h before x y after window.
            are_apart-neighbours (λ b. is_limit_close b config) _ before x y after
              (sym (
                  ap
                    (λ bars. are_apart (
                      indices_where (λ b. is_limit_close b config)
                        (index + 1 - config.anchor.recent_limit_window) bars))
                    window)
                ∙ required _ _ consecutive h);
        flags = (refl, word, t_word, required _ _ consecutive, required _ _ board);
        profiled =
            profile_cases (pool_record_is_full (pool_record_of limit_pool as_of s.bar))
              (pool_record_of limit_pool as_of s.bar) refl;
        first_board = λ h. before_of config ordered index (required _ _ board h);
        sealed = λ r h.
            let (full, same) = kept_record _ (pool_record_of limit_pool as_of s.bar) r h in
            let (value, once, time, sealed_at, early) =
              seal_cases config.anchor.first_seal_cutoff (pool_record_is_full (some r))
                r.consecutive_count r.first_seal_time sealed
                (sym (ap pool_record_is_full same) ∙ full)
                (sym (ap (seal_check config) same) ∙ seal) in
            let (kept, found) = found_record limit_pool as_of s.bar r same in
            (value, once, kept, found, time, sealed_at, early);
      }

  examined :
      (index : ℕ) (bar : DailyBar) (r : Option LimitUpRecord) (a : AnchorEvaluation)
      → examine_bar config ordered index bar r ≡ ok (some a)
      → (is_eligible_anchor config ordered index bar ≡ true)
        × (sealed : Option Bool) × (seal_check config r ≡ some sealed)
        × (anchor_evaluation config ordered index bar r sealed ≡ a)
  unfolding examine_bar
  examined index bar r a h = elim (Option-cases (seal_check config r)) [
    | inl e ↦ (ground arith, none, ground arith, ground arith)
    | inr (sealed, e) ↦ (ground arith, sealed, e, ground arith)
  ]

  from_index :
      (o : Option ℕ) (a : AnchorEvaluation)
      → last? (recent_limit_indices config ordered) ≡ o
      → elim o [
        | none ↦ ok none
        | some index ↦ do
          bar ← or_raise (get_elem? ordered index) index_error
          examine_bar config ordered index bar (pool_record_of limit_pool as_of bar)
      ]
        ≡ ok (some a)
      → IsAnchor config as_of limit_pool ordered a
  from_index none a e k = cc
  from_index (some index) a e k =
      let s : Stands index = last_limit index e in
      let (bar, e₀, k₀) = >>=-eq-ok (or_raise (get_elem? ordered index) index_error) _ k in
      let same : bar ≡ s.bar = cc (or_raise-ok (get_elem? ordered index) e₀, s.is_bar) in
      let (eligible, sealed, seal, found) =
        examined index s.bar (pool_record_of limit_pool as_of s.bar) a (
          subst
            (λ b.
              examine_bar config ordered index b (pool_record_of limit_pool as_of b) ≡ ok (some a))
            same k₀) in
      subst (IsAnchor config as_of limit_pool ordered) found
        (evaluated index s sealed eligible seal)

module _ (config : StrategyConfig) (as_of : Date) (limit_pool : List LimitUpRecord) where
  -- The anchor that is detected stands on the last of the bars until the day that is traded, not of an
  -- ST code, and closes at its limit price, among the configured last ones. It is dated by that bar and
  -- has its limit price. The bar is no one-word or T-word limit-up, has volume and amount where they are
  -- required, and the limit closes of the window that ends at it are counted and within the configured
  -- numbers, apart where that is required; where a first board is required, the bar before does not
  -- close at its limit. The evaluation's flags say so, its profile is FULL exactly when it has a pool
  -- record, and a pool record of it is the bar's, not after the day, its first consecutive one, and
  -- sealed by the cutoff.
  pub detect_anchor-IsAnchor :
      (bars : List DailyBar) (a : AnchorEvaluation)
      → detect_anchor bars as_of config limit_pool ≡ ok (some a)
      → IsAnchor config as_of limit_pool (bars_until as_of bars) a
  unfolding detect_anchor
  detect_anchor-IsAnchor bars a h =
      from_index config as_of limit_pool (bars_until as_of bars) _ a refl h
