-- ===== src/Extension.antt =====
-- core-api's ten_ext/luve_extension.py: the live stream of a session. Voice splits the audio into
-- utterances, Queue hands them to the loop that transcribes them, Lifecycle starts and ends a session.
-- The asynchronous tasks take turns at their awaits; each function here is one such turn.
pub mod Queue
pub mod Transcript
pub mod Confidence
pub mod Options
pub mod Voice
pub mod Lifecycle
pub mod Reply
