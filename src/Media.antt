-- ===== src/Media.antt =====
-- core-api's media package.
pub mod Buffer
pub mod Postprocess
