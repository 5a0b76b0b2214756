-- ===== src/Dataset.antt =====
-- The dataset of one analysis and its integrity checks: `KairosMatchDataset` in kairos/models.py.
-- The checks raise in the order of the code; each raise is a constructor of `KairosError`.
mod Checks
pub mod Remember
pub mod Scope
pub mod Sources
pub mod Temporal
pub mod Integrity
pub mod Tests
unfoldable pub use Checks.*
