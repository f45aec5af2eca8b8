-- ===== src/Wptserve.antt =====
-- Parts of the HTTP server that calls the handlers: tools/wptserve/wptserve.
pub mod Ranges
