-- ===== src/Tests/Engine.antt =====
-- The definitions that a run of the engine computes with.
use a_share_limit_pullback.Base.{insert_sorted, sort_by, sorted, distinct}
use a_share_limit_pullback.Conditions.{names_where, condition_score, conditions}
use a_share_limit_pullback.Dates.{show, month, year, day, isoformat, compact}
use a_share_limit_pullback.Decimal.{
  ◌≤𝔻◌, fit, ◌+𝔻◌, ◌-𝔻◌, ◌*𝔻◌, ◌/𝔻◌, absolute, quantize_fits, quantize, sum_from, minimum_of,
  maximum_of, mean,
}
use a_share_limit_pullback.Decimal.{◌+ℤ◌, ◌-ℤ◌, ◌*ℤ◌}
use a_share_limit_pullback.Decimal.{
  round_half_up, round_half_even, excess_digits, fit_precision, digit_count, divide_precision,
}
use a_share_limit_pullback.Derived.Enrichment.{
  enriched, compose_enrichment, event_record, events_to_limit_up_records,
}
use a_share_limit_pullback.Derived.Events.{
  row_bar, quality_of, derived_event, events_of, build_derived_limit_events,
}
use a_share_limit_pullback.Features.Bars.{
  by_date, bars_until, one_code, has_duplicates, ordered_bars,
}
use a_share_limit_pullback.Features.Continuous.{chain, chain_of, build_continuous_prices}
use a_share_limit_pullback.Features.Indicators.{
  ma_of, indicator_at, indicators_from, calculate_indicators, prefix_view,
}
use a_share_limit_pullback.Features.Kline.{
  calculate_kline_ratios, classify_kline_flags, calculate_kline_metrics,
}
use a_share_limit_pullback.Models.Codes.{is_code}
use a_share_limit_pullback.Models.Market.{validate_ohlc}
use a_share_limit_pullback.Models.Outcome.{
  from_payload, validate_labels, validate_copied, validate_frozen, validate_episode,
}
use a_share_limit_pullback.Models.Score.{
  available_score, available_max_score, normalized_score, validate_components, set_risk,
}
use a_share_limit_pullback.Models.Signal.{
  is_entry_candidate, check_events, check_frozen, check_invalid_prices, check_stage,
  check_event_levels, check_review, check_entry_room, check_reward, check_score, check_invalidation,
  validate_signal_invariants,
}
use a_share_limit_pullback.Models.Snapshots.{
  validate_anchor, validate_support, validate_timing, validate_s1, validate_resistance,
  validate_resistance_cluster, validate_candidate, validate_invalid_price,
}
use a_share_limit_pullback.Models.Strategy.{
  validate_point, validate_metrics, validate_level, validate_cluster, match_ratio,
  validate_condition_ids,
}
use a_share_limit_pullback.Models.TradePlan.{check_zone, check_label, check_prices, validate_plan}
use a_share_limit_pullback.Patterns.Evaluation.{
  validate_pattern_selection, pattern_score, matched_of, pattern_evaluation, evaluate_patterns,
}
use a_share_limit_pullback.Patterns.Facts.{
  short_mas, amplitude_contraction, air_volume_contraction, air_conditions, bearish_conditions,
}
use a_share_limit_pullback.Patterns.Selection.{select_primary_pattern, explain_primary_pattern}
use a_share_limit_pullback.Plans.Build.{label_of, prices_of, plan_fields, build_trade_plan}
use a_share_limit_pullback.Plans.Conditions.{
  prep_tests, concat, prep_reasons, prep_conditions, cancel_conditions, risk_reward_fields,
  preferred_in_buy_zone,
}
use a_share_limit_pullback.Plans.Facts.{
  next_open_session, execution_config, plan_support, anchor_bar, volume_contracted,
  prep_volume_metrics, near_support, distance_to_support_pct, days_since_anchor, is_damaged,
  no_distribution_damage,
}
use a_share_limit_pullback.Replay.Quality.{
  worst_quality, merged_quality, merge_signal_quality, daily_prefix_quality,
}
use a_share_limit_pullback.Replay.Summaries.{summary_of, summaries_of, setup_summaries}
use a_share_limit_pullback.Replay.Timeline.{
  timeline_item, first_stage, first_event, transition_summary, validate_termination, setup_ids,
  closing,
}
use a_share_limit_pullback.State.Confirm.{
  b1_results, evaluate_b1, volume_ratio, b2_results, evaluate_b2_confirmation,
}
use a_share_limit_pullback.State.Decide.{settle, decide}
use a_share_limit_pullback.State.Entry.{
  entry_reference, headroom_state, room_above, entry_room, risk_reward, thin_factor, reward_factor,
  is_disqualified, entry_quality_score,
}
use a_share_limit_pullback.State.Evaluate.{
  evaluate_normal, conclude, setup_id_of, evaluate_setup, evaluate_anchor, evaluate_strategy,
}
use a_share_limit_pullback.State.Events.{
  support_warnings, s1_position, s2_results, s2_exhaustion, s1_events, settle as events_settle,
  event_reasons, evaluate_event_flags,
}
use a_share_limit_pullback.State.Frozen.{same_setup, frozen_of, eligible, freeze, frozen_after}
use a_share_limit_pullback.State.Identity.{
  price_ticks, make_setup_id, as_cluster, as_s1_cluster, quantize_price, expected_b2_trigger,
  platform_b2_trigger,
}
use a_share_limit_pullback.State.Inputs.{
  ordered_of, bar_on, check_previous, check_inputs, indicators_of,
}
use a_share_limit_pullback.State.Invalidation.{
  hits_invalid_price, breaks_anchor_and_ma10, breaks_b1_low_on_volume, is_distributed,
  fails_recovery, invalid_reasons_at, evaluate_invalid_reasons,
}
use a_share_limit_pullback.State.Levels.{
  computed_support, computed_resistance, setup_invalid_price_of, day_levels, proposal_of,
}
use a_share_limit_pullback.State.Publish.{
  published, review_group_of, signal_reward, data_quality_of, with_room_risk, signal_of, publish,
}
use a_share_limit_pullback.State.Transition.{
  is_ready_for_b1, prior_trigger, confirms_b2, b2_check, current_reasons, all_reasons, was_b1_ready,
  next_stage, freezes_trigger, platform_trigger, trigger_after,
}
use a_share_limit_pullback.Structure.Anchor.{
  recent_limit_indices, window_limit_indices, pool_record_of, are_apart, inferred_first_board,
  seal_check, is_eligible_anchor, anchor_evaluation, examine_bar, detect_anchor,
}
use a_share_limit_pullback.Structure.Levels.{
  excluded_reason, is_lower_cluster, is_cluster, select_immediate, immediate_is_b2_platform,
  select_target, selected_reason, audit_reason, audit_candidate, select_resistance_levels,
}
use a_share_limit_pullback.Structure.Limits.{
  theoretical_limit_price, limit_price_fits, is_limit_close, is_one_word_limit, is_t_word_limit,
  pool_record_is_full,
}
use a_share_limit_pullback.Structure.Prices.{
  at_price, is_near, groups_from, groups_of, cluster_of, cluster_price_candidates,
}
use a_share_limit_pullback.Structure.Resistance.{
  append_highest, swing_highs, generate_resistance_candidates,
}
use a_share_limit_pullback.Structure.Support.{
  generate_support_candidates, relative_distance, ranks_before, select_support_cluster,
}
use a_share_limit_pullback.Study.Barriers.{
  pattern_touch, pattern_result, trigger_touch, trigger_outcome, excursion_window, apply_mfe_mae,
}
use a_share_limit_pullback.Study.Complete.{
  filled_labels, open_trade, reward_reason, try_plan, plan_of, labels_of, pattern_at, episode_of,
  stripped, complete_event,
}
use a_share_limit_pullback.Study.Consistent.{ReturnsUnless}
use a_share_limit_pullback.Study.Episode.{labels_in}
use a_share_limit_pullback.Study.Event.{date_index, future_of}
use a_share_limit_pullback.Study.Fill.{entry_of, resolve_later, resolve}
use a_share_limit_pullback.Study.Freeze.{pending_event, freeze_event}
use a_share_limit_pullback.Study.Later.{IncreasesFrom}
use a_share_limit_pullback.Study.Prep.{excursions_of, update_prep_metrics}
use a_share_limit_pullback.Study.Relabel.{
  frozen_event_from_episode, frozen_fields, relabel_frozen_event, is_relabelled, bars_of,
  relabel_one, relabel_frozen_episodes,
}
use a_share_limit_pullback.Study.Resolved.{goes_with, within, exit_for}
use a_share_limit_pullback.Study.Reward.{RaisesOnly}
use a_share_limit_pullback.Study.Stats.{
  total_days, ratio, mean_of, median, cohort, stats_of, stats, group_bucket, days_bucket,
  group_keys, group_stats,
}
use a_share_limit_pullback.Warehouse.Continuity.{
  pct_change_of, distinct_dates, ordered, codes_of, attached, preclose_of, index_of,
  build_sequential_preclose, previous_close_index,
}

unfoldable pub engine : Unit {0}
unfolding insert_sorted sort_by sorted distinct names_where condition_score conditions show month
    year day isoformat compact ◌≤𝔻◌ fit ◌+𝔻◌ ◌-𝔻◌ ◌*𝔻◌ ◌/𝔻◌ absolute quantize_fits quantize sum_from
    minimum_of maximum_of mean ◌+ℤ◌ ◌-ℤ◌ ◌*ℤ◌ round_half_up round_half_even excess_digits
    fit_precision digit_count divide_precision enriched compose_enrichment event_record
    events_to_limit_up_records row_bar quality_of derived_event events_of build_derived_limit_events
    by_date bars_until one_code has_duplicates ordered_bars chain chain_of build_continuous_prices
    ma_of indicator_at indicators_from calculate_indicators prefix_view calculate_kline_ratios
    classify_kline_flags calculate_kline_metrics is_code validate_ohlc from_payload validate_labels
    validate_copied validate_frozen validate_episode available_score available_max_score
    normalized_score validate_components set_risk is_entry_candidate check_events check_frozen
    check_invalid_prices check_stage check_event_levels check_review check_entry_room check_reward
    check_score check_invalidation validate_signal_invariants validate_anchor validate_support
    validate_timing validate_s1 validate_resistance validate_resistance_cluster validate_candidate
    validate_invalid_price validate_point validate_metrics validate_level validate_cluster
    match_ratio validate_condition_ids check_zone check_label check_prices validate_plan
    validate_pattern_selection pattern_score matched_of pattern_evaluation evaluate_patterns
    short_mas amplitude_contraction air_volume_contraction air_conditions bearish_conditions
    select_primary_pattern explain_primary_pattern label_of prices_of plan_fields build_trade_plan
    prep_tests concat prep_reasons prep_conditions cancel_conditions risk_reward_fields
    preferred_in_buy_zone next_open_session execution_config plan_support anchor_bar
    volume_contracted prep_volume_metrics near_support distance_to_support_pct days_since_anchor
    is_damaged no_distribution_damage worst_quality merged_quality merge_signal_quality
    daily_prefix_quality summary_of summaries_of setup_summaries timeline_item first_stage
    first_event transition_summary validate_termination setup_ids closing b1_results evaluate_b1
    volume_ratio b2_results evaluate_b2_confirmation settle decide entry_reference headroom_state
    room_above entry_room risk_reward thin_factor reward_factor is_disqualified entry_quality_score
    evaluate_normal conclude setup_id_of evaluate_setup evaluate_anchor evaluate_strategy
    support_warnings s1_position s2_results s2_exhaustion s1_events events_settle event_reasons
    evaluate_event_flags same_setup frozen_of eligible freeze frozen_after price_ticks make_setup_id
    as_cluster as_s1_cluster quantize_price expected_b2_trigger platform_b2_trigger ordered_of
    bar_on check_previous check_inputs indicators_of hits_invalid_price breaks_anchor_and_ma10
    breaks_b1_low_on_volume is_distributed fails_recovery invalid_reasons_at
    evaluate_invalid_reasons computed_support computed_resistance setup_invalid_price_of day_levels
    proposal_of published review_group_of signal_reward data_quality_of with_room_risk signal_of
    publish is_ready_for_b1 prior_trigger confirms_b2 b2_check current_reasons all_reasons
    was_b1_ready next_stage freezes_trigger platform_trigger trigger_after recent_limit_indices
    window_limit_indices pool_record_of are_apart inferred_first_board seal_check is_eligible_anchor
    anchor_evaluation examine_bar detect_anchor excluded_reason is_lower_cluster is_cluster
    select_immediate immediate_is_b2_platform select_target selected_reason audit_reason
    audit_candidate select_resistance_levels theoretical_limit_price limit_price_fits is_limit_close
    is_one_word_limit is_t_word_limit pool_record_is_full at_price is_near groups_from groups_of
    cluster_of cluster_price_candidates append_highest swing_highs generate_resistance_candidates
    generate_support_candidates relative_distance ranks_before select_support_cluster pattern_touch
    pattern_result trigger_touch trigger_outcome excursion_window apply_mfe_mae filled_labels
    open_trade reward_reason try_plan plan_of labels_of pattern_at episode_of stripped
    complete_event ReturnsUnless labels_in date_index future_of entry_of resolve_later resolve
    pending_event freeze_event IncreasesFrom excursions_of update_prep_metrics
    frozen_event_from_episode frozen_fields relabel_frozen_event is_relabelled bars_of relabel_one
    relabel_frozen_episodes goes_with within exit_for RaisesOnly total_days ratio mean_of median
    cohort stats_of stats group_bucket days_bucket group_keys group_stats pct_change_of
    distinct_dates ordered codes_of attached preclose_of index_of build_sequential_preclose
    previous_close_index
engine = tt
