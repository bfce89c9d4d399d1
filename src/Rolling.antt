-- ===== src/Rolling.antt =====
-- pkg/rolling: the rolling restart. State and status handling, one pass over the action groups of a
-- task, the check of versions, the loop that waits for CMS, and the start and end of a restart.
pub mod State
pub mod Actions
pub mod Retries
pub mod Split
pub mod Dispatch
pub mod Pass
pub mod Finish
pub mod Repeat
pub mod Compat
pub mod Range
pub mod Seen
pub mod Exact
pub mod Recorded
pub mod Start
pub mod Loop
pub mod Waiting
pub mod Cleanup
pub mod Handler
pub mod Tenants
pub mod Execute
mod Tests
mod Scenarios
