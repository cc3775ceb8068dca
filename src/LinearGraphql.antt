-- ===== src/LinearGraphql.antt =====
-- The linear_graphql tool of internal/tools/lineargql.
pub mod Parse
pub mod Tool
pub mod Strip
pub mod Rounds
pub mod Printed
pub mod Document
pub mod Definitions
pub mod Posts
