-- ===== src/Errs.antt =====
-- internal/errs/: errors with a severity, and their aggregation.
pub mod Defs
pub mod Top
pub mod Counts
mod Examples
