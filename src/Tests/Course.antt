-- ===== src/Tests/Course.antt =====
-- Two days of a setup.
use a_share_limit_pullback.Base.{
  is_some, Bool, true, false, none, some, List, [], ◌∷◌, ◌++◌, ok, raised, Outcome, or_raise,
  assertion, ◌>>=◌, ◌≡◌, refl,
}
use a_share_limit_pullback.Dates.{Date}
use a_share_limit_pullback.Models.Enums.{SetupStage}
use a_share_limit_pullback.Models.Market.{DailyBar}
use a_share_limit_pullback.Models.Signal.{StrategySignal}
use a_share_limit_pullback.Features.Indicators.{calculate_indicators}
use a_share_limit_pullback.Structure.Anchor.{detect_anchor}
use a_share_limit_pullback.State.Inputs.{bar_on, sequence}
use a_share_limit_pullback.State.Setup.Course.{
  Day, Reached, IsNextDay, signal_on, first, Reached-IsCoherent, Reached-can_follow,
  Reached-frozen_of,
}
use a_share_limit_pullback.State.Coherent.{IsCoherent, can_follow}
use a_share_limit_pullback.State.Frozen.{frozen_of}
use a_share_limit_pullback.State.Evaluate.{evaluate_strategy}
use a_share_limit_pullback.State.PointInTime.{evaluate_strategy-later}
use a_share_limit_pullback.Tests.Samples.{config, flat_ranking, to_watch, bar}
use a_share_limit_pullback.Tests.Engine.{engine}

abbrev pub is_ok : {A : Type 0} → Outcome A → Bool
is_ok (ok _) = true
is_ok (raised _) = false

unfoldable pub value : {A : Type 0} (o : Outcome A) → is_ok o ≡ true → A
value (ok a) h = a
value (raised e) h = cc

unfoldable pub day_on : Date → List DailyBar → Outcome Day
day_on as_of ordered = do
  current ← bar_on ordered as_of
  indicators ← calculate_indicators ordered config.indicators (some as_of)
  found ← detect_anchor ordered as_of config []
  anchor ← or_raise found assertion
  ok (record {
    as_of = as_of;
    ordered = ordered;
    indicators = indicators;
    current = current;
    pool = [];
    anchor = anchor;
  })

abbrev pub from_four : List DailyBar
from_four = to_watch ++ bar 739805 1105 1120 1100 1110 1105 1500 ∷ []

pub is_ok-value : {A : Type 0} (o : Outcome A) (h : is_ok o ≡ true) → o ≡ ok (value o h)
unfolding value
is_ok-value (ok a) h = refl
is_ok-value (raised e) h = cc

pub four_ok : is_ok (day_on 739804 to_watch) ≡ true
unfolding engine day_on
four_ok = refl

abbrev pub day_four : Day
day_four = value (day_on 739804 to_watch) four_ok

pub five_ok : is_ok (day_on 739805 from_four) ≡ true
unfolding engine day_on
five_ok = refl

abbrev pub day_five : Day
day_five = value (day_on 739805 from_four) five_ok

pub on_four_ok : is_ok (signal_on flat_ranking config day_four none) ≡ true
unfolding engine day_on value
on_four_ok = refl

abbrev pub on_four : StrategySignal
on_four = value (signal_on flat_ranking config day_four none) on_four_ok

pub on_five_ok : is_ok (signal_on flat_ranking config day_five (some on_four)) ≡ true
unfolding engine day_on value
on_five_ok = refl

abbrev pub on_five : StrategySignal
on_five = value (signal_on flat_ranking config day_five (some on_four)) on_five_ok

four_then_five : IsNextDay flat_ranking config day_five on_four on_five
unfolding engine day_on value
four_then_five = record { same = refl; later = refl; evaluated = is_ok-value _ on_five_ok }

four_Reached : Reached flat_ranking config on_four
unfolding engine
four_Reached = first day_four none refl (is_ok-value _ on_four_ok)

stages : (on_four.setup_stage ≡ SetupStage.b1_ready) × (on_five.setup_stage ≡ SetupStage.b2_ready)
unfolding engine day_on value
stages = (refl, refl)

Reached-IsCoherent_example : IsCoherent on_four
Reached-IsCoherent_example = Reached-IsCoherent flat_ranking config four_Reached

Reached-can_follow_example : can_follow on_four.setup_stage on_five.setup_stage ≡ true
Reached-can_follow_example =
    Reached-can_follow flat_ranking config day_five on_four on_five four_Reached four_then_five

four_has_support : is_some on_four.support ≡ true
unfolding engine day_on value
four_has_support = refl

Reached-frozen_of_example : frozen_of (some on_five) ≡ frozen_of (some on_four)
Reached-frozen_of_example =
    Reached-frozen_of flat_ranking config day_five on_four on_five four_Reached four_then_five
      four_has_support

abbrev a_later_bar : DailyBar
a_later_bar = bar 739805 1105 1120 1100 1110 1105 1500

evaluate_strategy-later_example :
    evaluate_strategy flat_ranking
      (sequence (to_watch ++ a_later_bar ∷ []))
      739804
      config
      ([] ++ [])
      none
      none
      none
    ≡ evaluate_strategy flat_ranking (sequence to_watch) 739804 config [] none none none
evaluate_strategy-later_example =
    evaluate_strategy-later flat_ranking config 739804 to_watch (a_later_bar ∷ []) [] [] none none
      none (refl, tt) tt
