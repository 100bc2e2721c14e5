-- ===== src/Grading.antt =====
-- The grading worker (services/grading-worker/src).
pub mod Events
pub mod Eligibility
pub mod Timing
pub mod Input
pub mod Builder
pub mod Skills
pub mod Llm
pub mod Store
pub mod Fake
pub mod World
pub mod Worker
pub mod Message
pub mod Settings
pub mod Scanner
