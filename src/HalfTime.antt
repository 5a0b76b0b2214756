-- ===== src/HalfTime.antt =====
-- The half-time markets: kairos/half_time.py.
mod Model
mod Scoring
mod Analyze
pub mod Samples
pub mod Scores
pub mod Gate
pub mod Run
pub mod Total
mod Tests
unfoldable pub use Model.*
unfoldable pub use Scoring.*
unfoldable pub use Analyze.*
