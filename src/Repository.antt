-- ===== src/Repository.antt =====
-- The reading of stored observations for one analysis: kairos/repository.py.
mod Rows
mod Latest
mod Queries
mod Load
pub mod Stored
pub mod Rank
pub mod Found
pub mod Tables
pub mod Sound
pub mod Loaded
pub mod Scoped
pub mod Contract
pub mod Replay
pub mod Errors
pub mod Daily
pub mod Sample
pub mod Tests
unfoldable pub use Rows.*
unfoldable pub use Latest.*
unfoldable pub use Queries.*
unfoldable pub use Load.*
