-- ===== src/FileReader/Trec.antt =====
-- `TrecDocument` and `TrecFileReader` of scanner/filereader/trec.go. The tokenizer is the list of the
-- tokens that it still gives, at the end of which is EOF, and `rand k` is the k-th random number.
pub mod RoundTrip
pub mod FromText
use irengine.Common.{
  ℕ, zero, suc, ◌+◌, ◌==◌, ◌^◌, ◌%◌, if◌then◌else◌, Bool, true, false, ◌&&◌, ◌||◌, Option, none,
  some, List, [], ◌∷◌, ◌++◌, length, Text, codes, text_eq,
}
use irengine.FileReader.Token.{
  Token, TokenType, null_token, text_token, xml_start_token, xml_end_token, symbol_token, type_eq,
}

pub record TrecDocument : Type 0 where
  pub tokens : List Token
  pub id : ℕ
  pub orig_id : Text

-- `NewTrecDocument`, given the number that `rand.Uint32` returns.
unfoldable pub new_trec_document : ℕ → Text → TrecDocument
new_trec_document random id = record { tokens = []; id = random % 2 ^ 32; orig_id = id }

unfoldable pub add : TrecDocument → Token → TrecDocument
add d token = record d {
  tokens = d.tokens ++ record token { position = length d.tokens + 1; doc_id = d.id } ∷ [];
}

-- `Tokens`: what the channel gives.
unfoldable pub document_tokens : TrecDocument → List Token
document_tokens d =
    d.tokens
    ++ record {
      text = [];
      type = null_token;
      doc_id = d.id;
      position = length d.tokens + 1;
      final = true;
      phrase_id = 0;
    }
      ∷ []

-- The variables of `read_next_doc`, the reader's counter, and how many random numbers were drawn.
pub record Parse : Type 0 where
  pub doc : Option TrecDocument
  pub in_text : Bool
  pub in_title : Bool
  pub titlebuf : Text
  pub doc_counter : ℕ
  pub drawn : ℕ

-- What a token does: the next round, the return of a document, or a panic.
pub data Step : Type 0 where
  next : Parse → Step
  returned : TrecDocument → Step
  panicked : Step

is_tag : TokenType → Text → Token → Bool
is_tag type name token = type_eq token.type type && text_eq token.text name

-- The cases of a text or a symbol.
read_word : Parse → Token → Step
unfolding add
read_word p token =
    if p.in_title && type_eq token.type text_token
    then next (record p { titlebuf = p.titlebuf ++ token.text })
    else if p.in_text
    then elim p.doc [ none ↦ panicked | some d ↦ next (record p { doc = some (add d token) }) ]
    else next p

-- The switch of `read_next_doc`.
unfoldable pub read_token : (ℕ → ℕ) → Parse → Token → Step
unfolding is_tag read_word new_trec_document
read_token rand p token =
    if is_tag xml_start_token (codes "DOC") token
    then next (record p { doc_counter = p.doc_counter + 1 })
    else if is_tag xml_end_token (codes "DOC") token
    then elim p.doc [ none ↦ panicked | some d ↦ returned d ]
    else if is_tag xml_start_token (codes "TEXT") token
    then elim p.doc [ none ↦ panicked | some d ↦ next (record p { in_text = true }) ]
    else if is_tag xml_end_token (codes "TEXT") token
    then next (record p { in_text = false })
    else if is_tag xml_start_token (codes "DOCNO") token
    then next (record p { in_title = true; titlebuf = [] })
    else if is_tag xml_end_token (codes "DOCNO") token
    then next (record p {
      doc = some (new_trec_document (rand p.drawn) p.titlebuf);
      in_title = false;
      drawn = p.drawn + 1;
    })
    else if type_eq token.type text_token || type_eq token.type symbol_token
    then read_word p token
    else next p

-- The result of `read_next_doc`: a document with the counters and the tokens left, EOF or a panic.
pub data ReadResult : Type 0 where
  read : TrecDocument → ℕ → ℕ → List Token → ReadResult
  eof : ReadResult
  panic : ReadResult

unfoldable pub read_loop : (ℕ → ℕ) → Parse → List Token → ReadResult
unfolding read_token
read_loop rand p [] = eof
read_loop rand p (token ∷ tokens) = elim (read_token rand p token) [
  | next p' ↦ read_loop rand p' tokens
  | returned d ↦ read d p.doc_counter p.drawn tokens
  | panicked ↦ panic
]

abbrev pub start : ℕ → ℕ → Parse
start doc_counter drawn = record {
  doc = none;
  in_text = false;
  in_title = false;
  titlebuf = [];
  doc_counter = doc_counter;
  drawn = drawn;
}

unfoldable pub read_next_doc : (ℕ → ℕ) → ℕ → ℕ → List Token → ReadResult
unfolding read_loop
read_next_doc rand doc_counter drawn tokens = read_loop rand (start doc_counter drawn) tokens

-- `read_to_chan(-1)` for at most `fuel` documents: the documents sent, and whether the channel was
-- closed, which a panic leaves open. `none` is out of fuel.
unfoldable pub read_to_chan : ℕ → (ℕ → ℕ) → ℕ → ℕ → List Token → Option (List TrecDocument × Bool)
unfolding read_next_doc
read_to_chan zero rand doc_counter drawn tokens = none
read_to_chan (suc fuel) rand doc_counter drawn tokens =
    elim (read_next_doc rand doc_counter drawn tokens) [
      | eof ↦ some ([], true)
      | panic ↦ some ([], false)
      | read doc counter drawn' left ↦ elim (read_to_chan fuel rand counter drawn' left) [
        | none ↦ none
        | some (docs, closed) ↦ some (doc ∷ docs, closed)
      ]
    ]

-- The number of documents is at most the number of tokens.
unfoldable pub read_all : (ℕ → ℕ) → List Token → Option (List TrecDocument × Bool)
unfolding read_to_chan
read_all rand tokens = read_to_chan (suc (length tokens)) rand 0 0 tokens
