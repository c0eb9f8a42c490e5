-- ===== src/Runner.antt =====
-- internal/runner/runner.go: the start of `Run`, the enrollment, the poll for commands and the loop.
pub mod Limits
pub mod State
pub mod Poll
pub mod Handlers
pub mod Enroll
pub mod Start
pub mod Loop
pub mod Watch
pub mod Measure
pub mod Finish
pub mod Program
