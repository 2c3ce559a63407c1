-- ===== src/Translation.antt =====
-- internal/translation: translated transcripts.
pub mod Ocp
pub mod Task
pub mod Meta
pub mod Agreement
pub mod Sessions
pub mod Granted
pub mod Delivery
pub mod Running
pub mod Detection
pub mod Flow
pub mod Polling
