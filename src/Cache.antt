-- ===== src/Cache.antt =====
-- cache/: which directories are caches, how large they are, which are cleaned, and how.
pub mod Policy
pub mod Scanner
pub mod Analyzer
pub mod Cleaner
pub mod Roots
