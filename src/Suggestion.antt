-- ===== src/Suggestion.antt =====
-- The daily suggestion of one match: kairos/suggestions.py.
mod Model
mod Service
pub mod Best
pub mod Reasons
pub mod Contract
mod Tests
unfoldable pub use Model.*
unfoldable pub use Service.*
