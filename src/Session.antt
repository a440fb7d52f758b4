-- ===== src/Session.antt =====
-- src/protocol/methods/movement/session_method.rs: payment channels on the server.
pub mod State
pub mod Effects
pub mod Chain
pub mod Payload
pub mod Updating
pub mod Handlers
pub mod Rules
pub mod Validity
pub mod Reading
pub mod Updaters
pub mod Actions
pub mod Opening
pub mod Service
pub mod Replay
pub mod Growth
pub mod Progress
pub mod Honest
pub mod Failure
pub mod Request
pub mod Schedule
pub mod Logic
pub mod Settling
pub mod Stepping
pub mod Interleaving
pub mod Race
pub mod Toy
pub mod Tests
pub mod ScheduleTests
