-- ===== src/State/Publish/Checks.antt =====
-- The validator of a signal accepts the entry room and the review group that the engine gives it.
use a_share_limit_pullback.Base.{
  true, not, ◌&&◌, ◌||◌, is_none, if◌then◌else◌, String, Option, none, some, List, ok, ◌≡◌, arith,
}
use a_share_limit_pullback.Decimal.{Decimal}
use a_share_limit_pullback.Dates.{Date}
use a_share_limit_pullback.Models.Config.{StrategyConfig}
use a_share_limit_pullback.Models.Enums.{
  EventFlag, ScoreProfile, SetupStage, ReviewGroup, is_actionable, is_open_space,
}
use a_share_limit_pullback.Models.Market.{DailyBar}
use a_share_limit_pullback.Models.Score.{ScoreBreakdown}
use a_share_limit_pullback.Models.Signal.{check_review}
use a_share_limit_pullback.Models.Snapshots.{S1Snapshot}
use a_share_limit_pullback.State.Entry.{EntryRoom}
use a_share_limit_pullback.State.Publish.{
  Decision, published, review_group_of, signal_reward, reward_of, signal_of, invalid_price_of,
}

module _ (config : StrategyConfig) (as_of : Date) (current : DailyBar) (profile : ScoreProfile)
    (d : Decision) (flags : List EventFlag) (reasons : List (EventFlag × List String))
    (score : ScoreBreakdown) where
  review_passes :
      (stage : SetupStage) (target : Option S1Snapshot) (invalid : Option Decimal)
      (ratio : Option Decimal)
      → reward_of current.close invalid target ≡ ok ratio
      → ((not (
              is_open_space (
                if is_actionable stage && is_none target
                then ReviewGroup.open_space
                else ReviewGroup.standard))
            || is_none target && is_none ratio)
          && (not (is_actionable stage && is_none target)
              || is_open_space (
                  if is_actionable stage && is_none target
                  then ReviewGroup.open_space
                  else ReviewGroup.standard)))
        ≡ true
  unfolding reward_of
  review_passes stage (some t) invalid ratio h = ground arith
  review_passes stage none none ratio h = ground arith
  review_passes stage none (some p) ratio h = ground arith

  -- The review group and the reward that the engine gives a signal pass the validator's review
  -- check: OPEN_SPACE has no target S1 and no reward, and an actionable stage without one is OPEN_SPACE.
  pub signal_of-check_review :
      (room : EntryRoom) (ratio : Option Decimal)
      → signal_reward d.stage current (published d.stage d.frozen) ≡ ok ratio
      → check_review (signal_of config as_of current profile d flags reasons score room ratio)
        ≡ true
  unfolding check_review signal_of review_group_of signal_reward reward_of
  signal_of-check_review room ratio h =
      review_passes d.stage (published d.stage d.frozen).target_s1
        (invalid_price_of (λ s. s.invalid_price) (published d.stage d.frozen)) ratio h
