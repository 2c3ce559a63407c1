-- ===== src/Service.antt =====
-- internal/service/service.go: the rooms of the app.
pub mod Application
pub mod Request
pub mod Languages
pub mod Startup
pub mod Ending
pub mod Runs
pub mod Abandoned
pub mod Overlap
pub mod Idle
