-- ===== src/Tests.antt =====
-- Runs of the model on concrete inputs, and the theorems at inputs that meet their hypotheses.
mod TreeRuns
mod NodeRuns
mod ListRuns
mod EncoderRuns
mod DateRuns
mod PointRuns
mod RankRuns
mod CommandRuns
mod ResultRuns
mod DocumentRuns
mod MessageRuns
