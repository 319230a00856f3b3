-- ===== src/Constrained.antt =====
-- The lexicon of bounded memory of indexer/constrained.
pub mod PostingListSet
pub mod Lexicon
