-- ===== src/Runner.antt =====
-- apps/runner/src: the cancellation of steps in flight and the summary of a run's tests.
pub mod Cancellation
pub mod Summary
mod Tests
