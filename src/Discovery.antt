-- ===== src/Discovery.antt =====
-- The discovery of the day's fixtures within a request budget: sports_data/discovery.py.
mod Model
mod Plan
mod Funnel
mod Recent
pub mod Conserved
mod Suitable
pub mod Bounded
pub mod Reconciled
mod Passes
mod Loop
pub mod Recency
mod Tests
unfoldable pub use Model.*
unfoldable pub use Plan.*
unfoldable pub use Funnel.*
unfoldable pub use Recent.*
