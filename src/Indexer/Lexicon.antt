-- ===== src/Indexer/Lexicon.antt =====
-- `TrieLexicon` and `Term` of indexer/lexicon.go. A term that is found is changed in place, which is
-- written as inserting it again.
pub mod Terms
use irengine.Common.{ℕ, ◌+◌, if◌then◌else◌, Bool, true, false, Option, none, some, Text}
use irengine.FileReader.Token.{Token, null_token, type_eq}
use irengine.Indexer.SkipMap.{SkipMap}
use irengine.Indexer.Entry.{Entry}
use irengine.Indexer.TermMap.{TermMap}
use irengine.Indexer.PostingList.{PostingList, insert_entry}

pub record Term (S : SkipMap Entry) : Type 0 where
  pub text : Text
  pub tf : ℕ
  pub pl : PostingList S

module _ (S : SkipMap Entry) where
  unfoldable pub register : Term S → Token → Term S
  register t token = record t { pl = (insert_entry S t.pl token).0; tf = t.tf + 1 }

  -- `create` is the posting list that the initializer creates.
  unfoldable pub new_term_from_token : Token → PostingList S → Term S
  unfolding register
  new_term_from_token t create = register (record { text = t.text; tf = 0; pl = create }) t

  module _ (T : TermMap (Term S)) where
    open T use {Trie, find, insert_key}

    -- `InsertToken`: the term, which is nil for a null token.
    unfoldable pub insert_token : PostingList S → Trie → Token → Trie × Option (Term S)
    unfolding register new_term_from_token
    insert_token create lex token =
        if type_eq token.type null_token then (lex, none) else elim (find token.text lex) [
          | some term ↦
              let term' = register term token in (insert_key token.text term' lex, some term')
          | none ↦
              let term' = new_term_from_token token create in
              (insert_key term'.text term' lex, some term')
        ]
