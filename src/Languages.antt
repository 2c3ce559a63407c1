-- ===== src/Languages.antt =====
-- The languages of internal/languages/models.go.
pub mod Model
pub mod First
pub mod Second
pub mod Third
pub mod Fourth
pub mod Table
pub mod Supported
