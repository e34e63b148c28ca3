-- ===== src/Replay.antt =====
-- quality.py and replay.py: the quality of a signal's sources, and the summaries of a timeline.
pub mod Quality
pub mod Timeline
pub mod Summaries
pub mod Complete
