-- ===== src/Examples.antt =====
-- Runs of the parts on small inputs.
mod FollowRuns
mod ReorgRuns
mod DbRuns
mod AlertRuns
mod CheckRuns
mod TraceRuns
mod TuiRuns
mod AbiRuns
mod ApiRuns
mod MatchRuns
mod PageRuns
mod BlockRuns
