-- ===== src/Study/Errors.antt =====
-- When `_complete_event` raises that an actionable event has no room for a reward.
use a_share_limit_pullback.Base.{Outcome}
