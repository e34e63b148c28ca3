-- ===== src/Tests/Parts.antt =====
-- The parts of a day, at concrete inputs.
use a_share_limit_pullback.Base.{
  ◌↔◌, last?, or_raise, index_error, contains, String, true, none, some, List, [], ◌∷◌, Outcome, ok,
  ◌≡◌, refl,
}
use a_share_limit_pullback.Decimal.{decimal, one, ◌≤𝔻◌, ◌+𝔻◌, ◌*𝔻◌}
use a_share_limit_pullback.Features.Bars.{bars_until}
use a_share_limit_pullback.Models.Enums.{ScoreProfile}
use a_share_limit_pullback.Models.Signal.{check_entry_room}
use a_share_limit_pullback.Models.Strategy.{PriceCluster, IndicatorPoint}
use a_share_limit_pullback.State.Entry.{EntryRoom, entry_room}
use a_share_limit_pullback.State.Publish.{signal_of, published}
use a_share_limit_pullback.State.Publish.Room.{signal_of-check_entry_room}
use a_share_limit_pullback.Structure.Anchor.{detect_anchor}
use a_share_limit_pullback.Structure.Anchor.Detected.{IsAnchor, detect_anchor-IsAnchor}
use a_share_limit_pullback.Structure.Support.{select_support_cluster}
use a_share_limit_pullback.Structure.Support.Nearest.{IsAsNear, IsIn, select_support_cluster-IsIn}
use a_share_limit_pullback.State.Frozen.{Proposal, FrozenLevels, freeze}
use a_share_limit_pullback.State.Frozen.Later.{IsFromNextDay, freeze-IsFromNextDay}
use a_share_limit_pullback.State.Invalidation.{evaluate_invalid_reasons}
use a_share_limit_pullback.State.Invalidation.Explained.{
  IsReason, evaluate_invalid_reasons-IsReason,
}
use a_share_limit_pullback.Tests.Course.{day_on, value, is_ok, is_ok-value}
use a_share_limit_pullback.Tests.Engine.{engine}
use a_share_limit_pullback.Tests.Samples.{config}
use a_share_limit_pullback.Tests.Stages.{
  up, day_up, on_up, decision, decision_on, near_support, passed_s1,
}

abbrev room_today : Outcome EntryRoom
room_today =
    entry_room decision.stage day_up.current.close decision.trigger
      (published decision.stage decision.frozen).target_s1 config

room_ok : is_ok room_today ≡ true
unfolding engine day_on value decision_on
room_ok = refl

signal_of-check_entry_room_example :
    check_entry_room (
      signal_of config 739806 day_up.current ScoreProfile.price_only decision [] [] on_up.score
        (value room_today room_ok)
        none)
    ≡ true
signal_of-check_entry_room_example =
    signal_of-check_entry_room config 739806 day_up.current ScoreProfile.price_only decision [] []
      on_up.score (value room_today room_ok) none (is_ok-value _ room_ok)

abbrev clusters : List PriceCluster
clusters = passed_s1 ∷ near_support ∷ []

nearest : select_support_cluster clusters (decimal 1110 2) config ≡ some near_support
unfolding engine
nearest = refl

select_support_cluster-IsIn_example :
    IsIn near_support clusters
    × ((near_support.center ≤𝔻 decimal 1110 2 *𝔻 (one +𝔻 config.support.max_above_reference_close))
        ≡ true)
    × ((d : PriceCluster)
        → IsIn d clusters
        → (d.center ≤𝔻 decimal 1110 2 *𝔻 (one +𝔻 config.support.max_above_reference_close)) ≡ true
        → IsAsNear (decimal 1110 2) near_support d)
select_support_cluster-IsIn_example =
    select_support_cluster-IsIn clusters (decimal 1110 2) config near_support nearest

detected : detect_anchor up 739806 config [] ≡ ok (some day_up.anchor)
unfolding engine day_on value
detected = refl

detect_anchor-IsAnchor_example : IsAnchor config 739806 [] (bars_until 739806 up) day_up.anchor
detect_anchor-IsAnchor_example = detect_anchor-IsAnchor config 739806 [] up day_up.anchor detected

abbrev proposal : Proposal
proposal = record {
  support = near_support;
  invalid_price = decimal 1094 2;
  immediate = some passed_s1;
  target = none;
  audit = [];
  expected_b2_trigger = decimal 1120 2;
}

freeze_ok : is_ok (freeze 739806 config day_up.current proposal) ≡ true
unfolding engine day_on value
freeze_ok = refl

abbrev frozen : FrozenLevels
frozen = value (freeze 739806 config day_up.current proposal) freeze_ok

freeze-IsFromNextDay_example :
    IsFromNextDay (λ x. x.eligible_from) 739806 frozen.support
    × IsFromNextDay (λ x. x.eligible_from) 739806 frozen.invalid_snapshot
    × IsFromNextDay (λ x. x.eligible_from) 739806 frozen.immediate_resistance
    × IsFromNextDay (λ x. x.eligible_from) 739806 frozen.target_s1
freeze-IsFromNextDay_example =
    freeze-IsFromNextDay 739806 config day_up.current proposal frozen (is_ok-value _ freeze_ok)

today_ok : is_ok (or_raise (last? day_up.indicators) index_error) ≡ true
unfolding engine day_on value
today_ok = refl

abbrev today : IndicatorPoint
today = value (or_raise (last? day_up.indicators) index_error) today_ok

last_is_today : last? day_up.indicators ≡ some today
unfolding engine day_on value
last_is_today = refl

abbrev reasons_today : Outcome (List String)
reasons_today =
    evaluate_invalid_reasons day_up.ordered day_up.indicators day_up.current day_up.anchor
      (some near_support) none (some (decimal 1170 2)) config

reasons_ok : is_ok reasons_today ≡ true
unfolding engine day_on value
reasons_ok = refl

evaluate_invalid_reasons-IsReason_example :
    (contains (value reasons_today reasons_ok) "HIT_INVALID_PRICE" ≡ true)
    ↔ IsReason config day_up.ordered day_up.current day_up.anchor today near_support none
        (some (decimal 1170 2))
        "HIT_INVALID_PRICE"
evaluate_invalid_reasons-IsReason_example =
    evaluate_invalid_reasons-IsReason config day_up.ordered day_up.current day_up.anchor today
      near_support none (some (decimal 1170 2)) day_up.indicators (value reasons_today reasons_ok)
      "HIT_INVALID_PRICE" last_is_today (is_ok-value _ reasons_ok)
