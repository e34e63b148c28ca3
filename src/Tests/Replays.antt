-- ===== src/Tests/Replays.antt =====
-- The timeline of two setups, and a signal with the quality of its sources.
use a_share_limit_pullback.Base.{true, false, List, [], ◌∷◌, map, All, Returns, ◌≡◌, refl}
use a_share_limit_pullback.Models.Enums.{DataQuality}
use a_share_limit_pullback.Models.Labels.{SetupTerminationReason}
use a_share_limit_pullback.Models.Signal.{is_entry_candidate}
use a_share_limit_pullback.Replay.Complete.{setup_summaries-setup_ids}
use a_share_limit_pullback.Replay.Quality.{
  merge_signal_quality, merge_signal_quality-is_entry_candidate,
}
use a_share_limit_pullback.Replay.Summaries.{one_profile, setup_summaries}
use a_share_limit_pullback.Replay.Timeline.{
  TimelineItem, anchored, grouped, setup_ids, timeline_item,
}
use a_share_limit_pullback.Tests.Course.{day_on, is_ok, on_five, on_four, value}
use a_share_limit_pullback.Tests.Engine.{engine}

abbrev of_five : TimelineItem
unfolding timeline_item
of_five = timeline_item on_five

abbrev other_setup : TimelineItem
other_setup = record of_five { setup_id = "other"; trade_date = 739808 }

abbrev timeline : List TimelineItem
timeline = timeline_item on_four ∷ of_five ∷ other_setup ∷ []

summaries_ok : is_ok (setup_summaries timeline) ≡ true
unfolding engine value day_on
summaries_ok = refl

reasons :
    map (λ s. s.termination_reason) (value (setup_summaries timeline) summaries_ok)
    ≡ SetupTerminationReason.superseded_by_new_anchor ∷ SetupTerminationReason.active ∷ []
unfolding engine value day_on
reasons = refl

one_profile_each :
    All (λ id. one_profile (grouped id (anchored timeline)) ≡ true) (setup_ids (anchored timeline))
unfolding engine value day_on
one_profile_each = (refl, (refl, tt))

setup_summaries-setup_ids_example :
    Returns
      (λ summaries. map (λ s. s.setup_id) summaries ≡ setup_ids (anchored timeline))
      (setup_summaries timeline)
setup_summaries-setup_ids_example = setup_summaries-setup_ids timeline one_profile_each

merged_candidate :
    is_entry_candidate
      (merge_signal_quality on_five (DataQuality.partial ∷ []) ("STALE_DATA" ∷ []) false)
    ≡ true
unfolding engine value day_on
merged_candidate = refl

merge_signal_quality-is_entry_candidate_example : is_entry_candidate on_five ≡ true
merge_signal_quality-is_entry_candidate_example =
    merge_signal_quality-is_entry_candidate on_five (DataQuality.partial ∷ []) ("STALE_DATA" ∷ [])
      false merged_candidate
