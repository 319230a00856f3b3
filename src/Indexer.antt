-- ===== src/Indexer.antt =====
-- The index: posting lists and their entries.
pub mod Ordered
pub mod SkipMap
pub mod Entry
pub mod PostingList
pub mod TermMap
pub mod Lexicon
pub mod SingleTerm
