-- ===== src/FileReader.antt =====
-- The documents and tokens of scanner/filereader.
pub mod Token
pub mod Scanner
pub mod Tokenizer
pub mod Trec
