-- ===== src/Journal.antt =====
-- The append-only journal of analyses and of their resolutions: kairos/journal.py.
mod Store
mod Model
mod Service
mod Metrics
pub mod Inserting
pub mod View
pub mod Append
pub mod Refine
pub mod Resolve
pub mod Returned
pub mod History
pub mod Drain
pub mod Counted
mod Sample
mod Tests
unfoldable pub use Store.*
unfoldable pub use Model.*
unfoldable pub use Service.*
unfoldable pub use Metrics.*
