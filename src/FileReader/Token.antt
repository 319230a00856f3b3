-- ===== src/FileReader/Token.antt =====
-- The tokens of scanner/filereader/tokenizer.go.
use irengine.Common.{ℕ, ◌==◌, if◌then◌else◌, Bool, true, false, not, Text, text_eq, List, concat}

pub data TokenType : Type 0 where
  null_token text_token xml_start_token xml_end_token symbol_token : TokenType

-- The value of the constant, which Go's `==` compares.
abbrev pub iota : TokenType → ℕ
iota null_token = 0
iota text_token = 1
iota xml_start_token = 2
iota xml_end_token = 3
iota symbol_token = 4

abbrev pub type_eq : TokenType → TokenType → Bool
type_eq a b = iota a == iota b

pub record Token : Type 0 where
  pub text : Text
  pub type : TokenType
  pub doc_id : ℕ
  pub position : ℕ
  pub final : Bool
  pub phrase_id : ℕ

-- `new(Token)` zeroes the fields that `NewToken` does not set.
unfoldable pub new_token : Text → TokenType → Token
new_token text ttype = record {
  text = text;
  type = ttype;
  doc_id = 0;
  position = 0;
  final = false;
  phrase_id = 0;
}

unfoldable pub clone : Token → Token
unfolding new_token
clone t =
    let newtok = new_token t.text t.type in
    record newtok {
      doc_id = t.doc_id;
      position = t.position;
      final = t.final;
      phrase_id = t.phrase_id;
    }

unfoldable pub eql : Token → Token → Bool
eql t other =
    let same_type = type_eq t.type other.type in
    if type_eq t.type null_token
    then true
    else if not (text_eq t.text other.text)
    then false
    else same_type

unfoldable pub equal : Token → Token → Bool
unfolding eql
equal t other = if not (t.position == other.position) then false else eql t other

-- `CloneWithText` of indexer/filters/filter.go.
unfoldable pub clone_with_text : Token → List Text → Token
unfolding clone
clone_with_text t parts = record (clone t) { text = concat parts; final = true }
