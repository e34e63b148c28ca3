-- ===== src/State/Invalidation/Explained.antt =====
-- What the reasons that end a setup say of the prices and volumes.
use a_share_limit_pullback.Base.{
  le→leb, ℕ, ◌+◌, ◌-◌, ◌≤◌, Bool, true, false, not, ◌&&◌, ◌||◌, String, str_eq, eq_iff, eq_refl,
  Option, none, some, List, contains, leb, length, take, drop, but_last, last_n, last?, get_elem?,
  all, All, is_empty, if◌then◌else◌, ok, ◌≡◌, ◌↔◌, inl, inr, refl, sym, ap, ◌∙◌, arith,
}
use a_share_limit_pullback.Decimal.{Decimal, one, ◌≤𝔻◌, ◌<𝔻◌, ◌-𝔻◌, ◌*𝔻◌, mean}
use a_share_limit_pullback.Features.Indicators.{ma_of}
use a_share_limit_pullback.Models.Config.{StrategyConfig}
use a_share_limit_pullback.Models.Market.{DailyBar}
use a_share_limit_pullback.Models.Snapshots.{SupportSnapshot}
use a_share_limit_pullback.Models.Strategy.{AnchorEvaluation, IndicatorPoint, PriceCluster}
use a_share_limit_pullback.State.Confirm.{volumes}
use a_share_limit_pullback.State.Invalidation.{
  below, reference_low_of, day_before, failed_since, break_floor, hits_invalid_price,
  breaks_anchor_and_ma10, breaks_b1_low_on_volume, is_distributed, fails_recovery,
  evaluate_invalid_reasons,
}
use a_share_limit_pullback.State.Invalidation.Reasons.{by_tests}
use a_share_limit_pullback.State.Invalidation.Conjunctions.{
  both, three, conj, conj_three, or_left, or_right, either, off_of_not, all_down,
}

module _ (config : StrategyConfig) (ordered : List DailyBar) (current : DailyBar)
    (anchor : AnchorEvaluation) (point : IndicatorPoint) (support : PriceCluster)
    (snapshot : Option SupportSnapshot) (invalid_price : Option Decimal) where
  abbrev expansion : Decimal
  expansion = config.invalidation.volume_expansion_min

  abbrev days : ℕ
  days = config.invalidation.consecutive_distribution_days

  -- The names of the reasons, each with what the prices and volumes are.
  pub data IsReason (name : String) : Type 0 where
    hit :
        {price : Decimal}
        → name ≡ "HIT_INVALID_PRICE"
        → invalid_price ≡ some price
        → (current.close ≤𝔻 price) ≡ true
        → IsReason name
    support_break :
        name ≡ "SUPPORT_BREAK"
        → (current.close <𝔻 support.low *𝔻 (one -𝔻 config.invalidation.support_break_buffer)) ≡ true
        → IsReason name
    anchor_and_ma10 :
        {ma10 : Decimal}
        → name ≡ "ANCHOR_AND_MA10_BREAK"
        → ma_of 10 point.raw_equivalent_mas ≡ some ma10
        → (current.close <𝔻 anchor.snapshot.anchor_price) ≡ true
        → (current.close <𝔻 ma10) ≡ true
        → IsReason name
    b1_low_on_volume :
        {s : SupportSnapshot} {low : Decimal}
        → name ≡ "VOLUME_BREAK_B1_LOW"
        → snapshot ≡ some s
        → s.reference_low ≡ some low
        → (current.close <𝔻 low) ≡ true
        → is_empty (last_n 5 (but_last ordered)) ≡ false
        → (mean (volumes (last_n 5 (but_last ordered))) *𝔻 expansion ≤𝔻 current.volume) ≡ true
        → IsReason name
    distribution :
        name ≡ "CONSECUTIVE_VOLUME_DISTRIBUTION"
        → days + 5 ≤ length ordered
        → All
            (λ b. ((b.close <𝔻 b.preclose) ≡ true) × ((b.close <𝔻 b.open_price) ≡ true))
            (last_n days ordered)
        → (mean (volumes (take 5 (drop (length ordered - (days + 5)) ordered))) *𝔻 expansion
            ≤𝔻 mean (volumes (last_n days ordered)))
          ≡ true
        → IsReason name
    failed_recovery :
        (s : SupportSnapshot) {before : DailyBar}
        → name ≡ "FAILED_SUPPORT_RECOVERY"
        → 2 ≤ length ordered
        → snapshot ≡ some s
        → get_elem? ordered (length ordered - 2) ≡ some before
        → s.eligible_from ≤ before.trade_date
        → (before.close <𝔻 support.low *𝔻 (one -𝔻 config.invalidation.support_break_buffer)) ≡ true
        → (current.close <𝔻 support.low) ≡ true
        → IsReason name

  below_of :
      (o : Option Decimal)
      → below config ordered current o ≡ true
      → (x : Decimal) × (o ≡ some x) × ((current.close <𝔻 x) ≡ true)
  unfolding below
  below_of none h = cc
  below_of (some x) h = (x, refl, h)

  hit_of :
      (o : Option Decimal)
      → hits_invalid_price config ordered current o ≡ true
      → (x : Decimal) × (o ≡ some x) × ((current.close ≤𝔻 x) ≡ true)
  unfolding hits_invalid_price
  hit_of none h = cc
  hit_of (some x) h = (x, refl, h)

  low_of :
      (o : Option SupportSnapshot) (low : Decimal)
      → reference_low_of config ordered current o ≡ some low
      → (s : SupportSnapshot) × (o ≡ some s) × (s.reference_low ≡ some low)
  unfolding reference_low_of
  low_of none low h = cc
  low_of (some s) low h = (s, refl, h)

  before_last :
      (b : Bool) (o : Option DailyBar) (before : DailyBar)
      → (if b then o else none) ≡ some before
      → (b ≡ true) × (o ≡ some before)
  before_last true o before h = (refl, h)
  before_last false o before h = cc

  failed_of :
      (s : Option SupportSnapshot) (o : Option DailyBar)
      → failed_since config ordered current support s o ≡ true
      → (x : SupportSnapshot) × (before : DailyBar) × (s ≡ some x)
        × (o ≡ some before)
        × (x.eligible_from ≤ before.trade_date)
        × ((before.close <𝔻 support.low *𝔻 (one -𝔻 config.invalidation.support_break_buffer))
            ≡ true)
        × ((current.close <𝔻 support.low) ≡ true)
  unfolding failed_since
  failed_of none o h = cc
  failed_of (some x) none h = cc
  failed_of (some x) (some before) h =
      let (eligible, broken, weak) =
        three (leb x.eligible_from before.trade_date)
          (before.close <𝔻 break_floor config ordered current support)
          (current.close <𝔻 support.low) h in
      (x, before, refl, refl, ground (arith, eligible), broken, weak)

  abbrev named : Bool → String → String → Bool
  named test reason name = test && str_eq reason name

  -- the six tests, each with its name
  abbrev is_tested : String → Bool
  is_tested name =
      (((((named (hits_invalid_price config ordered current invalid_price) "HIT_INVALID_PRICE" name
                || named (current.close <𝔻 break_floor config ordered current support)
                    "SUPPORT_BREAK" name)
              || named (breaks_anchor_and_ma10 config ordered current anchor point)
                  "ANCHOR_AND_MA10_BREAK" name)
            || named (breaks_b1_low_on_volume config ordered current snapshot) "VOLUME_BREAK_B1_LOW"
                name)
          || named (is_distributed config ordered current) "CONSECUTIVE_VOLUME_DISTRIBUTION" name)
        || named (fails_recovery config ordered current support snapshot) "FAILED_SUPPORT_RECOVERY"
            name)

  explained : (name : String) → is_tested name ≡ true → IsReason name
  unfolding breaks_anchor_and_ma10 breaks_b1_low_on_volume is_distributed fails_recovery
  explained name h = elim (either _ _ h) [
    | inr k ↦
        let (test, same) = both _ _ k in
        let (s, before, x, y, eligible, broken, weak) = failed_of snapshot _ test in
        let (two, found) = before_last (leb 2 (length ordered)) _ before y in
        failed_recovery s (is_named same) (ground (arith, two)) x found eligible broken weak
    | inl h₁ ↦ elim (either _ _ h₁) [
      | inr k ↦
          let (test, same) = both _ _ k in
          let (enough, down, volume) =
            three (leb (days + 5) (length ordered))
              (all (λ b. b.close <𝔻 b.preclose && b.close <𝔻 b.open_price) (last_n days ordered))
              (mean (volumes (take 5 (drop (length ordered - (days + 5)) ordered))) *𝔻 expansion
                ≤𝔻 mean (volumes (last_n days ordered)))
              test in
          distribution (is_named same) (ground (arith, enough)) ((all_down _).0 down) volume
      | inl h₂ ↦ elim (either _ _ h₂) [
        | inr k ↦
            let (test, same) = both _ _ k in
            let (under, filled, volume) =
              three
                (below config ordered current (reference_low_of config ordered current snapshot))
                (not (is_empty (last_n 5 (but_last ordered))))
                (mean (volumes (last_n 5 (but_last ordered))) *𝔻 expansion ≤𝔻 current.volume)
                test in
            let (low, lows, weak) = below_of _ under in
            let (s, x, y) = low_of snapshot low lows in
            b1_low_on_volume (is_named same) x y weak (off_of_not _ filled) volume
        | inl h₃ ↦ elim (either _ _ h₃) [
          | inr k ↦
              let (test, same) = both _ _ k in
              let (under, rest) =
                both (current.close <𝔻 anchor.snapshot.anchor_price)
                  (below config ordered current (ma_of 10 point.raw_equivalent_mas)) test in
              let (ma10, found, weak) = below_of _ rest in
              anchor_and_ma10 (is_named same) found under weak
          | inl h₄ ↦ elim (either _ _ h₄) [
            | inr k ↦ let (test, same) = both _ _ k in support_break (is_named same) test
            | inl k ↦
                let (test, same) = both _ _ k in
                let (price, found, under) = hit_of invalid_price test in
                hit (is_named same) found under
          ]
        ]
      ]
    ]
  ]
    where
      is_named : {reason : String} → str_eq reason name ≡ true → name ≡ reason
      is_named {reason} e = sym ((eq_iff reason name).0 e)

  with_name :
      (test : Bool) (reason name : String)
      → name ≡ reason
      → test ≡ true
      → named test reason name ≡ true
  with_name test reason name e h =
      conj test (str_eq reason name) h (ap (str_eq reason) e ∙ eq_refl reason)

  tested : (name : String) → IsReason name → is_tested name ≡ true
  unfolding breaks_anchor_and_ma10 breaks_b1_low_on_volume is_distributed fails_recovery
      hits_invalid_price below reference_low_of failed_since
  tested name (hit e found under) = or_left _ _ (
      or_left _ _ (
        or_left _ _ (
          or_left _ _ (
            or_left _ _ (
              with_name _ _ name e
                (ap (hits_invalid_price config ordered current) found ∙ under))))))
  tested name (support_break e under) =
      or_left _ _
        (or_left _ _ (or_left _ _ (or_left _ _ (or_right _ _ (with_name _ _ name e under)))))
  tested name (anchor_and_ma10 e found under weak) = or_left _ _ (
      or_left _ _ (
        or_left _ _ (
          or_right _ _ (
            with_name _ _ name e
              (conj _ _ under (ap (below config ordered current) found ∙ weak))))))
  tested name (b1_low_on_volume e found low weak filled volume) =
      or_left _
        (named (fails_recovery config ordered current support snapshot) "FAILED_SUPPORT_RECOVERY"
          name)
        (or_left _
          (named (is_distributed config ordered current) "CONSECUTIVE_VOLUME_DISTRIBUTION" name)
          (or_right _ _ (
            with_name (breaks_b1_low_on_volume config ordered current snapshot) _ name e (
              conj_three _ _ _
                (ap (λ o. below config ordered current (reference_low_of config ordered current o))
                    found
                  ∙ ap (below config ordered current) low
                  ∙ weak)
                (ap not filled) volume))))
  tested name (distribution e enough down volume) = or_left _ _ (
      or_right _ _ (
        with_name _ _ name e (
          conj_three (leb (days + 5) (length ordered)) _ _ (ground (arith, enough))
            ((all_down _).1 down) volume)))
  tested name (failed_recovery s e two found before eligible broken weak) = or_right _ _ (
      with_name _ _ name e (
        ap (λ o. failed_since config ordered current support o (day_before config ordered current))
          found
        ∙ ap (failed_since config ordered current support (some s)) (
            ap (λ b. if b then get_elem? ordered (length ordered - 2) else none)
              (le→leb 2 (length ordered) two)
            ∙ before)
        ∙ conj_three _ _ _ (le→leb _ _ eligible) broken weak))

  -- With a support, a name is among the reasons exactly when it is one of the six, each with what it
  -- says: the close is not above the invalid price; or below the support's low less the buffer; or below
  -- the anchor and the MA10; or below the reference low on a volume expanded over the five days before;
  -- or the last days fell below their preclose and open on a volume expanded over the five before; or
  -- the close is below the support's low and that of the day before broke it, once it was eligible.
  pub evaluate_invalid_reasons-IsReason :
      (indicators : List IndicatorPoint) (reasons : List String) (name : String)
      → last? indicators ≡ some point
      → evaluate_invalid_reasons ordered indicators current anchor
          (some support)
          snapshot
          invalid_price
          config
        ≡ ok reasons
      → (contains reasons name ≡ true) ↔ IsReason name
  evaluate_invalid_reasons-IsReason indicators reasons name e h =
      let same : contains reasons name ≡ is_tested name =
        by_tests ordered indicators current anchor support snapshot invalid_price config point
          reasons name e h in
      (λ k. explained name (sym same ∙ k), λ r. same ∙ tested name r)
