-- ===== src/Replay/Summaries.antt =====
-- replay.py: the summary of each setup of a timeline (`_setup_summaries`).
use a_share_limit_pullback.Base.{
  false, not, String, Bool, Option, none, some, List, [], ◌∷◌, map, all, last?, Outcome, ok, raised,
  raise_if, or_raise, checked, changed_profile, index_error, ◌>>=◌, ◌>>◌,
}
use a_share_limit_pullback.Models.Enums.{
  EventFlag, is_b1_ready, is_b2_confirmed, is_b2_ready, is_invalid,
}
use a_share_limit_pullback.Models.Snapshots.{AnchorSnapshot}
use a_share_limit_pullback.Replay.Quality.{worst_quality}
use a_share_limit_pullback.Replay.Timeline.{
  TimelineItem, SetupSummary, anchored, closing, first_event, first_stage, grouped, same_profile,
  setup_ids, validate_termination,
}

abbrev pub Anchored : Type 0
Anchored = TimelineItem × AnchorSnapshot

-- `len(profiles) == 1`
abbrev pub one_profile : List Anchored → Bool
one_profile [] = false
one_profile (opening ∷ rest) =
    all (λ i. same_profile opening.0.score_profile i.0.score_profile) rest

-- the summary of a setup with its items: `next` is the setup after it, `latest` the last item of
-- the timeline
unfoldable pub summary_of :
    List TimelineItem
    → List Anchored
    → Option String
    → TimelineItem
    → String
    → List Anchored
    → Outcome SetupSummary
unfolding first_stage first_event
summary_of timeline items next latest id [] = raised changed_profile
summary_of timeline items next latest id (opening ∷ rest) =
    let own = map (λ i. i.0) (opening ∷ rest) in
    let invalid_date = first_stage is_invalid own in
    do
      raise_if (not (one_profile (opening ∷ rest))) changed_profile
      final ← or_raise (last? own) index_error
      (closed_date, reason) ← closing timeline items invalid_date next final latest
      checked "SetupSummary" validate_termination record {
        setup_id = id;
        anchor_date = opening.1.anchor_date;
        score_profile = opening.0.score_profile;
        data_quality = worst_quality opening.0.data_quality (map (λ i. i.0.data_quality) rest);
        first_b1_date = first_stage is_b1_ready own;
        first_b2_ready_date = first_stage is_b2_ready own;
        first_b2_confirmed_date = first_stage is_b2_confirmed own;
        first_near_s1_date = first_event EventFlag.near_s1 own;
        first_s1_breakout_date = first_event EventFlag.s1_breakout own;
        first_s2_exhausted_date = first_event EventFlag.s2_exhausted own;
        invalid_date = invalid_date;
        final_stage = final.setup_stage;
        closed_date = closed_date;
        termination_reason = reason;
      }

abbrev pub next_of : List String → Option String
next_of [] = none
next_of (id ∷ ids) = some id

unfoldable pub summaries_of :
    List TimelineItem → List Anchored → TimelineItem → List String → Outcome (List SetupSummary)
summaries_of timeline items latest [] = ok []
summaries_of timeline items latest (id ∷ ids) = do
  summary ← summary_of timeline items (next_of ids) latest id (grouped id items)
  summaries ← summaries_of timeline items latest ids
  ok (summary ∷ summaries)

abbrev pub summaries_at : List TimelineItem → Option TimelineItem → Outcome (List SetupSummary)
summaries_at timeline none = ok []
summaries_at timeline (some latest) =
    summaries_of timeline (anchored timeline) latest (setup_ids (anchored timeline))

unfoldable pub setup_summaries : List TimelineItem → Outcome (List SetupSummary)
setup_summaries timeline = summaries_at timeline (last? timeline)
