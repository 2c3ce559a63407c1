-- ===== src/Vosk.antt =====
-- internal/vosk: speech recognition.
pub mod Models
pub mod Recognizer
pub mod Manager
pub mod Audio
pub mod Chunks
pub mod References
pub mod Balance
pub mod Rooms
pub mod Samples
pub mod Download
pub mod Worker
