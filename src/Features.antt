-- ===== src/Features.antt =====
-- features/common/math.py, strategy/kline_policy.py and strategy/indicators_calc.py.
pub mod Bars
pub mod Kline
pub mod Continuous
pub mod Indicators
