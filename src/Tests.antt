-- ===== src/Tests.antt =====
-- Runs of the definitions, and the theorems applied at concrete data.
pub mod Data
pub mod Grading
pub mod Messages
pub mod Streams
mod Queue
pub mod Voice
mod Lifecycle
mod Service
mod Scanner
mod Brain
mod Speech
mod Coordinator
mod Recognition
mod Confidence
