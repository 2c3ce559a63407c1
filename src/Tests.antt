-- ===== src/Tests.antt =====
-- Runs of the models on small inputs, and the theorems at inputs that meet their hypotheses.
mod Samples
mod Signaling
mod Translation
mod Languages
mod Task
mod Sending
mod Vosk
mod Service
mod Overlap
mod Server
mod Download
mod Worker
mod Flow
mod AppApi
mod Handlers
