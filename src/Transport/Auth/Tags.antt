-- ===== src/Transport/Auth/Tags.antt =====
-- The tags of crates/rb-transport/src/auth.rs.
