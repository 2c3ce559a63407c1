-- ===== src/AppApi.antt =====
-- internal/appapi: the configuration and the authentication of requests.
pub mod Base64
pub mod Auth
pub mod RoundTrip
pub mod Admission
pub mod Client
pub mod Requests
