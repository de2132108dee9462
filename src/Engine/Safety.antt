-- ===== src/Engine/Safety.antt =====
-- What holds along a run of executeDAG: which steps have settled, what the in-degrees count, and
-- what the trace shows.
pub mod Settled
pub mod Owed
pub mod Failures
pub mod Blame
pub mod Grow
pub mod Results
pub mod Pending
pub mod Wave
pub mod Rounds
pub mod Answers
pub mod Clear
