-- ===== src/Sending.antt =====
-- internal/transcript/sender.go and internal/translation/sender.go: transcripts and their
-- translations on their way to the targets.
pub mod Timing
pub mod Transcript
pub mod Translated
pub mod Timeouts
pub mod OneCopy
