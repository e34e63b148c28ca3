-- ===== src/State/Invalidation/Reasons.antt =====
-- Which reasons end a setup.
use a_share_limit_pullback.Base.{
  Bool, true, false, ◌&&◌, ◌||◌, String, str_eq, Option, some, List, [], ◌∷◌, ◌++◌, contains,
  distinct, sorted, any-sort_by, contains-distinct, text_leb, last?, or_raise, index_error, ◌>>=◌,
  ok, ok-injective, ◌≡◌, refl, sym, ap, ◌∙◌, arith,
}
use a_share_limit_pullback.Decimal.{Decimal, ◌<𝔻◌}
use a_share_limit_pullback.Models.Config.{StrategyConfig}
use a_share_limit_pullback.Models.Market.{DailyBar}
use a_share_limit_pullback.Models.Snapshots.{SupportSnapshot}
use a_share_limit_pullback.Models.Strategy.{AnchorEvaluation, IndicatorPoint, PriceCluster}
use a_share_limit_pullback.State.Invalidation.{
  reason_if, break_floor, hits_invalid_price, breaks_anchor_and_ma10, breaks_b1_low_on_volume,
  is_distributed, fails_recovery, invalid_reasons_at, evaluate_invalid_reasons,
}

contains-sorted :
    (xs : List String) (name : String) → contains (sorted (distinct xs)) name ≡ contains xs name
unfolding sorted
contains-sorted xs name =
    any-sort_by text_leb (λ s. str_eq s name) (distinct xs) ∙ contains-distinct name xs

contains-last_reason :
    (b : Bool) (reason name : String)
    → contains (reason_if b reason) name ≡ (b && str_eq reason name)
contains-last_reason true reason name = ground arith
contains-last_reason false reason name = refl

contains-append_reason :
    (xs : List String) (b : Bool) (reason name : String)
    → contains (xs ++ reason_if b reason) name ≡ (contains xs name || (b && str_eq reason name))
contains-append_reason [] b reason name = contains-last_reason b reason name
contains-append_reason (x ∷ xs) b reason name =
    ground (arith, contains-append_reason xs b reason name)

reasons_named :
    (a b c d e f : Bool) (name : String)
    → contains
        (reason_if a "HIT_INVALID_PRICE"
          ++ reason_if b "SUPPORT_BREAK"
          ++ reason_if c "ANCHOR_AND_MA10_BREAK"
          ++ reason_if d "VOLUME_BREAK_B1_LOW"
          ++ reason_if e "CONSECUTIVE_VOLUME_DISTRIBUTION"
          ++ reason_if f "FAILED_SUPPORT_RECOVERY")
        name
      ≡ ((((((a && str_eq "HIT_INVALID_PRICE" name) || (b && str_eq "SUPPORT_BREAK" name))
                || (c && str_eq "ANCHOR_AND_MA10_BREAK" name))
              || (d && str_eq "VOLUME_BREAK_B1_LOW" name))
            || (e && str_eq "CONSECUTIVE_VOLUME_DISTRIBUTION" name))
          || (f && str_eq "FAILED_SUPPORT_RECOVERY" name))
reasons_named a b c d e f name =
    contains-append_reason
      (reason_if (a) "HIT_INVALID_PRICE"
        ++ reason_if (b) "SUPPORT_BREAK"
        ++ reason_if (c) "ANCHOR_AND_MA10_BREAK"
        ++ reason_if (d) "VOLUME_BREAK_B1_LOW"
        ++ reason_if (e) "CONSECUTIVE_VOLUME_DISTRIBUTION")
      f "FAILED_SUPPORT_RECOVERY" name
    ∙ ap (λ q. q || (f && str_eq "FAILED_SUPPORT_RECOVERY" name))
        (contains-append_reason
            (reason_if (a) "HIT_INVALID_PRICE"
              ++ reason_if (b) "SUPPORT_BREAK"
              ++ reason_if (c) "ANCHOR_AND_MA10_BREAK"
              ++ reason_if (d) "VOLUME_BREAK_B1_LOW")
            e "CONSECUTIVE_VOLUME_DISTRIBUTION" name
          ∙ ap (λ q. q || (e && str_eq "CONSECUTIVE_VOLUME_DISTRIBUTION" name))
              (contains-append_reason
                  (reason_if (a) "HIT_INVALID_PRICE"
                    ++ reason_if (b) "SUPPORT_BREAK"
                    ++ reason_if (c) "ANCHOR_AND_MA10_BREAK")
                  d "VOLUME_BREAK_B1_LOW" name
                ∙ ap (λ q. q || (d && str_eq "VOLUME_BREAK_B1_LOW" name))
                    (contains-append_reason
                        (reason_if (a) "HIT_INVALID_PRICE" ++ reason_if (b) "SUPPORT_BREAK") c
                        "ANCHOR_AND_MA10_BREAK" name
                      ∙ ap (λ q. q || (c && str_eq "ANCHOR_AND_MA10_BREAK" name))
                          (contains-append_reason (reason_if (a) "HIT_INVALID_PRICE") b
                              "SUPPORT_BREAK" name
                            ∙ ap (λ q. q || (b && str_eq "SUPPORT_BREAK" name))
                                (contains-last_reason a "HIT_INVALID_PRICE" name)))))

-- With a support, a name is among the reasons when it names one of the six tests and that test holds.
pub by_tests :
    (ordered : List DailyBar) (indicators : List IndicatorPoint) (current : DailyBar)
    (anchor : AnchorEvaluation) (support : PriceCluster) (snapshot : Option SupportSnapshot)
    (invalid_price : Option Decimal) (config : StrategyConfig) (point : IndicatorPoint)
    (reasons : List String) (name : String)
    → last? indicators ≡ some point
    → evaluate_invalid_reasons ordered indicators current anchor
        (some support)
        snapshot
        invalid_price
        config
      ≡ ok reasons
    → contains reasons name ≡ (
        (((((hits_invalid_price config ordered current invalid_price
                  && str_eq "HIT_INVALID_PRICE" name)
                || (current.close <𝔻 break_floor config ordered current support
                    && str_eq "SUPPORT_BREAK" name))
              || (breaks_anchor_and_ma10 config ordered current anchor point
                  && str_eq "ANCHOR_AND_MA10_BREAK" name))
            || (breaks_b1_low_on_volume config ordered current snapshot
                && str_eq "VOLUME_BREAK_B1_LOW" name))
          || (is_distributed config ordered current
              && str_eq "CONSECUTIVE_VOLUME_DISTRIBUTION" name))
        || (fails_recovery config ordered current support snapshot
            && str_eq "FAILED_SUPPORT_RECOVERY" name))
unfolding evaluate_invalid_reasons invalid_reasons_at
by_tests ordered indicators current anchor support snapshot invalid_price config point reasons name
      e h =
    sym (ap (λ r. contains r name) (ok-injective (sym (reasons_from e) ∙ h)))
    ∙ contains-sorted
        (reason_if (hits_invalid_price config ordered current invalid_price) "HIT_INVALID_PRICE"
          ++ reason_if (current.close <𝔻 break_floor config ordered current support) "SUPPORT_BREAK"
          ++ reason_if (breaks_anchor_and_ma10 config ordered current anchor point)
              "ANCHOR_AND_MA10_BREAK"
          ++ reason_if (breaks_b1_low_on_volume config ordered current snapshot)
              "VOLUME_BREAK_B1_LOW"
          ++ reason_if (is_distributed config ordered current) "CONSECUTIVE_VOLUME_DISTRIBUTION"
          ++ reason_if (fails_recovery config ordered current support snapshot)
              "FAILED_SUPPORT_RECOVERY")
        name
    ∙ reasons_named (hits_invalid_price config ordered current invalid_price)
        (current.close <𝔻 break_floor config ordered current support)
        (breaks_anchor_and_ma10 config ordered current anchor point)
        (breaks_b1_low_on_volume config ordered current snapshot)
        (is_distributed config ordered current)
        (fails_recovery config ordered current support snapshot) name
  where
    reasons_from :
        last? indicators ≡ some point
        → evaluate_invalid_reasons ordered indicators current anchor
            (some support)
            snapshot
            invalid_price
            config
          ≡ ok (
              invalid_reasons_at config ordered current anchor point support snapshot invalid_price)
    reasons_from k =
        ap
          (λ o. or_raise o index_error >>= λ p.
            ok (invalid_reasons_at config ordered current anchor p support snapshot invalid_price))
          k
