-- ===== src/Study.antt =====
-- outcome.py: the study that labels a frozen signal with the bars after it.
pub mod Barriers
pub mod Event
pub mod Fill
pub mod Complete
pub mod Later
pub mod Stats
pub mod Cohort
pub mod FirstTouch
pub mod Resolved
pub mod Consistent
pub mod Bounds
pub mod Priced
pub mod Episode
pub mod Reward
pub mod Errors
pub mod Relabel
pub mod Again
pub mod Prep
pub mod Freeze
