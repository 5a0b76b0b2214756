-- ===== src/Opportunity.antt =====
-- The opportunity of one match: kairos/opportunities.py.
mod Model
mod Schema
mod Service
pub mod Selection
pub mod Ranking
pub mod Contract
pub mod Origin
mod Tests
unfoldable pub use Model.*
unfoldable pub use Schema.*
unfoldable pub use Service.*
