-- ===== src/Manager.antt =====
-- The session manager of cursoragentv1/manager.go, which runs the sessions of a process over the
-- state store.
pub mod Calls
pub mod Output
pub mod World
pub mod Events
pub mod Flights
pub mod Turns
pub mod Ends
pub mod Replays
pub mod Start
pub mod Resumption
pub mod Resume
pub mod FollowUp
pub mod History
pub mod Tests
