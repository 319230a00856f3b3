-- ===== src/Filters.antt =====
-- The token filters of indexer/filters.
pub mod Plumbing
pub mod Place
pub mod Words
pub mod Hyphens
pub mod DateText
pub mod Dates
pub mod Phrases
pub mod Sequence
