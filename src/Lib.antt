-- ===== src/Lib.antt =====
-- The strategy of limit_pullback, an A-share screener: what one code's daily bars say about it at
-- the close of one day, the plan that such a signal
-- gives for the next day, and the study that labels it with the bars after it.
--
-- The program (src/limit_pullback): `state/engine.py` has `evaluate_strategy`, which takes the bars
-- of a code, the day, the configuration, the limit-up pool and the signal of an earlier day, and
-- returns a `StrategySignal` or raises. It keeps no state of its own: the previous signal carries the
-- levels that a setup has frozen (support, invalid price, resistances, B2 trigger), and a level
-- frozen on one day is eligible from the next calendar day. It calls the indicators
-- (`strategy/indicators_calc.py`, `strategy/kline_policy.py`, `features/common/math.py`), the
-- structure (`strategy/structure.py`, `features/structure/prices.py`), the patterns
-- (`strategy/patterns.py`), its own helpers (`state/engine_helpers.py`) and a ranking function, and
-- builds the pydantic models of `models/`, whose validators may raise.
--
-- The files:
--   Base: lists, Boolean tests, sorting, and `Outcome`, a value or an exception.
--   Decimal: Python's `decimal.Decimal` at the default 28 digits. A value is a coefficient and a
--   scale; every operation rounds half even to 28 digits, `quantize` rounds half up as the program
--   asks it to. NaN, infinities and the exponent range are left out; a division by zero, which raises
--   in Python, gives zero here. Python's `quantize` raises `InvalidOperation` where its result has more
--   than 28 digits: `quantize_fits` says when, Derived raises there, and in the other files a price
--   or a ratio of so many digits is outside the model, so that their theorems are about values whose
--   roundings fit.
--   Dates: a date is its ordinal; year, month and day are computed from it.
--   Models: the records and enums of `models/`, one `validate_…` for each validator. Fields that
--   nothing reads (`generated_at`, the parts of `PatternEvaluation` that the signal copies apart) are
--   kept once or dropped.
--   Features: bars in the order of their dates, candle ratios, continuous prices, indicators.
--   Structure: limit-up tests and `detect_anchor`, the support and resistance candidates, their
--   clusters and the selection of levels.
--   Conditions, Patterns: a dict of condition results and its score; the two patterns.
--   State: the engine. Inputs are the checks at its start; Frozen, Levels, Transition, Decide and
--   Publish are its parts in order; Entry, Confirm, Invalidation, Events and Identity are
--   `engine_helpers.py`; Evaluate is `evaluate_strategy`. Coherent says which snapshots go with which
--   stage and which stage follows which; Setup.Course is the course of a setup over the days.
--   Plans: `trade_plan.py`, the plan that a signal gives for the next session. Facts is what the bars
--   say, Conditions the reasons against a plan and its entry, Build `build_trade_plan`, with the text
--   identities that it copies as one record; Zone, Clear, Prefix and NextSession have the proofs.
--   Replay: `quality.py` and `replay.py`, the quality that sources give a signal, and what a timeline
--   of days says of its setups; Complete has the proof.
--   Derived: `derived_limit_event.py`. Events derives limit-up events from daily rows by the tests of
--   Structure, Enrichment joins external rows to them, with the parser of a time as a parameter.
--   Warehouse: `warehouse/continuity.py`. Continuity builds the previous close of each staged row and
--   the validator's index of them; Mirror and Predecessor have the proofs.
--   Study: `outcome.py`. Freeze makes an event of a signal and its plan, with the hash of the event as
--   a parameter. An event is completed to an episode (`_complete_event`):
--   Event finds the bars after it, Fill the entry in the first session and how the trade ends,
--   Barriers the first touch of S1 or the invalid price, Complete composes them and builds the
--   episode; Relabel computes an episode again, Prep follows a B1_PREP event, Stats counts a cohort.
--   FirstTouch, Later, Resolved, Consistent, Bounds, Priced, Episode, Errors, Again and Cohort have
--   the proofs. `_complete_event` is given no index of dates and makes it, as its default does.
--   Tests: runs on concrete inputs.
--
-- Python's exceptions are values of `Error`, one constructor for each message; a pydantic model's
-- `ValidationError` is `validation` with its name. The field constraints of a model (`PositiveDecimal`,
-- a pattern on the code) that no validator of its own states are those that `validate_…` names; for the
-- bars they are left to the caller. Sets of names are sorted lists without duplicates. The ranking
-- function is a parameter, any function from the facts it is given to a score or an error. The loops
-- are structural recursion on lists, so no fuel is used.
-- The models of the program strip the white space around a text (`str_strip_whitespace`). Where an event
-- becomes an episode this is a parameter, `strip`; elsewhere the texts are taken as stripped ones. A
-- code is six of the digits 0 to 9, without the pattern's other digits of Unicode.
--
-- Not modelled: the ranking policy itself, the hashes, files and process pool of the outcome study,
-- the order and the output of the plans, execution, the driver of a replay and diagnosis,
-- the screen's runs, the rest of the warehouse and the providers, which are storage, network and
-- reporting around this core.
pub mod Base
pub mod Decimal
pub mod Dates
pub mod Models
pub mod Features
pub mod Structure
pub mod Conditions
pub mod Patterns
pub mod State
pub mod Plans
pub mod Study
pub mod Replay
pub mod Derived
pub mod Warehouse
mod Tests
