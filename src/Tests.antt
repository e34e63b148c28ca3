-- ===== src/Tests.antt =====
-- Runs of the model on concrete inputs, and the theorems at inputs that meet their hypotheses.
mod Decimals
mod Samples
mod Engine
mod Course
mod Stages
mod Parts
mod Study
mod Plans
mod Replays
mod Events
mod Closes
