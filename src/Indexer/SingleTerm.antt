-- ===== src/Indexer/SingleTerm.antt =====
-- `SingleTermIndex` of indexer/single_term.go: what `Insert` and the goroutine `inserter` do to the
-- lexicon and to the documents' statistics. The weight of a term in a document is a floating-point
-- number: its type, its formula and the test for infinity are parameters.
pub mod Documents
use irengine.Common.{
  ℕ, ◌+◌, ltb, if◌then◌else◌, Bool, true, false, Option, none, some, List, [], ◌∷◌, Text, Dict,
  nat_key, text_key, lookup, insert,
}
use irengine.FileReader.Token.{Token, null_token, type_eq}
use irengine.Indexer.SkipMap.{SkipMap}
use irengine.Indexer.Entry.{Entry, frequency}
use irengine.Indexer.TermMap.{TermMap}
use irengine.Indexer.PostingList.{PostingList, get_entry, entry_count}
use irengine.Indexer.Lexicon.{Term, insert_token}

pub record StoredDocInfo (Weight : Type 0) : Type 0 where
  pub id : ℕ
  pub human_id : Text
  pub term_count : ℕ
  pub max_tf : ℕ
  pub term_tf_idf : Dict Text Weight

-- `weight tf df documents` is `Tf_d * Idf`.
pub record Weights : Type 1 where
  pub Weight : Type 0
  pub weight : ℕ → ℕ → ℕ → Weight
  pub is_inf : Weight → Bool

module _ (S : SkipMap Entry) where
  -- `Tf_d`, before it is made a floating-point number
  unfoldable pub tf_d : Term S → ℕ → ℕ
  tf_d t d = elim (get_entry S t.pl d) [ none ↦ 0 | some pl_entry ↦ frequency pl_entry ]

  unfoldable pub df : Term S → ℕ
  df t = entry_count S t.pl

  module _ (T : TermMap (Term S)) (W : Weights) where
    open T use {Trie, empty}
    open W use {Weight, weight, is_inf}

    -- The fields of the index, with the counter of the inserter.
    pub record SingleTermIndex : Type 0 where
      pub lexicon : Trie
      pub pl_init : PostingList S
      pub document_count : ℕ
      pub document_map : Dict ℕ (StoredDocInfo Weight)
      pub termcounter : ℕ

    -- `Init` with a lexicon whose posting lists are created as `create`
    unfoldable pub init : PostingList S → SingleTermIndex
    init create = record {
      lexicon = empty;
      pl_init = create;
      document_count = 0;
      document_map = [];
      termcounter = 0;
    }

    -- What `Insert` stores of a document before its tokens go to the filters.
    unfoldable pub insert_info : SingleTermIndex → ℕ → Text → SingleTermIndex
    insert_info t id orig_ident = record t {
      document_map =
          insert id
            (record {
              id = id;
              human_id = orig_ident;
              term_count = 0;
              max_tf = 0;
              term_tf_idf = [];
            })
            t.document_map;
    }

    -- The statistics of a document after one of its tokens; `none` is the panic on an infinite weight.
    unfoldable pub update_info : ℕ → Term S → StoredDocInfo Weight → Option (StoredDocInfo Weight)
    unfolding tf_d df
    update_info documents term info =
        let w = weight (tf_d term info.id) (df term) documents in
        if is_inf w
        then none
        else some (record info {
          term_tf_idf = insert term.text w info.term_tf_idf;
          max_tf = (if ltb info.max_tf term.tf then term.tf else info.max_tf);
        })

    -- One token that the inserter reads; `none` is a panic, as on a document that is not stored.
    unfoldable pub inserter_step : SingleTermIndex → Token → Option SingleTermIndex
    inserter_step t token = elim (lookup token.doc_id t.document_map) [
      | none ↦ none
      | some info ↦
          if type_eq token.type null_token
          then some (record t {
            document_count = t.document_count + 1;
            document_map =
                insert token.doc_id (record info { term_count = t.termcounter }) t.document_map;
            termcounter = 0;
          })
          else elim (insert_token S T t.pl_init t.lexicon token).1 [
            | none ↦ none
            | some term ↦ elim (update_info (t.document_count + 1) term info) [
              | none ↦ none
              | some info' ↦ some (record t {
                lexicon = (insert_token S T t.pl_init t.lexicon token).0;
                document_map = insert token.doc_id info' t.document_map;
                termcounter = t.termcounter + 1;
              })
            ]
          ]
    ]

    -- The loop of `inserter` over the tokens that come out of the filters.
    unfoldable pub inserter : SingleTermIndex → List Token → Option SingleTermIndex
    unfolding inserter_step
    inserter t [] = some t
    inserter t (token ∷ tokens) = elim (inserter_step t token) [
      | none ↦ none
      | some t' ↦ inserter t' tokens
    ]
