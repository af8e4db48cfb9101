-- ===== src/Bridge.antt =====
-- The client of the language model bridge: services/llm-bridge/client-cpp.
pub mod Utf8
pub mod Uuid
pub mod Calendar
pub mod Stamps
pub mod Messages
pub mod State
pub mod Admission
pub mod Commands
pub mod Responses
pub mod Whispers
pub mod Worker
pub mod Runs
