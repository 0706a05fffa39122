-- ===== src/RunResults.antt =====
-- termroom/run_results.py: reviewing and applying the results of a Remote Run.
pub mod Items
pub mod Files
pub mod Scan
pub mod Plan
pub mod Review
pub mod Build
pub mod Apply
pub mod Merge
pub mod Ready
pub mod Examples
