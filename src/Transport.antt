-- ===== src/Transport.antt =====
-- Requests to the provider (src/transport/request.rs, src/transport/http.rs).
pub mod Request
