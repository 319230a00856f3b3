-- ===== src/Tests.antt =====
-- Runs of the theorems on concrete data.
mod Index
mod Filters
mod Query
mod Reader
mod Sets
mod Memory
mod Terms
mod Disk
mod History
mod Tokens
mod Rankers
use irengine.Common.{ℕ, false, Text, []}
use irengine.FileReader.Token.{Token, TokenType, text_token, null_token}

abbrev pub token_of : TokenType → Text → ℕ → ℕ → Token
token_of type text doc position = record {
  text = text;
  type = type;
  doc_id = doc;
  position = position;
  final = false;
  phrase_id = 0;
}

abbrev pub word : Text → ℕ → ℕ → Token
word = token_of text_token

abbrev pub doc_end : ℕ → Token
doc_end doc = token_of null_token [] doc 0
