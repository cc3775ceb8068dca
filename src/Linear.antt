-- ===== src/Linear.antt =====
-- internal/tracker/linear: the client of the Linear API.
pub mod Normalize
pub mod Client
pub mod Pages
