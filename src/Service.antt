-- ===== src/Service.antt =====
-- core-api's services/session_service.py: what a learner reads of the sessions.
pub mod Words
pub mod Forms
pub mod Canonical
pub mod Listing
pub mod Pages
pub mod Status
pub mod Settled
pub mod Create
