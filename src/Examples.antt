-- ===== src/Examples.antt =====
-- A small server with one session that is running, and the theorems applied to it.
pub mod Sample
pub mod Tokens
pub mod Listing
pub mod Running
pub mod Saving
pub mod Ranges
pub mod Manifest
pub mod Updating
pub mod Ignoring
