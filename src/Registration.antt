-- ===== src/Registration.antt =====
-- registration/: what the account registration checks before it asks the server, and the envelope of
-- what it asks.
pub mod Password
pub mod Legy
