-- ===== src/Web.antt =====
-- crates/s2l-web: what the web interface keeps between requests.
pub mod Auth
