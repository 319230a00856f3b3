-- ===== src/QueryEngine/Ranking/Phrases.antt =====
-- `ProcessPositional` of the rankers, and `ProcessQuery`, which calls it for an index of positions.
use irengine.Common.{
  ℕ, if◌then◌else◌, ltb, Bool, true, false, not, ◌&&◌, Option, none, some, List, [], ◌∷◌, ◌++◌,
  codes, Dict, nat_key, text_key, lookup, format_int,
}
use irengine.FileReader.Token.{Token}
use irengine.Indexer.SkipMap.{SkipMap}
use irengine.Indexer.Entry.{Entry}
use irengine.Indexer.TermMap.{TermMap}
use irengine.Indexer.PostingList.{PostingList, entry_count}
use irengine.Indexer.Lexicon.{Term}
use irengine.Indexer.SingleTerm.{Weights, SingleTermIndex}
use irengine.QueryEngine.Positional.{filter_positional}
use irengine.QueryEngine.Response.{Result, Response, error_response}
use irengine.QueryEngine.Ranking.{
  Float64, Bm25, Runtime, sum_squares, score_entries, bm25_entry, lm_entry, cosine_entry,
  append_scores, sorted_response,
}
use irengine.QueryEngine.Ranking.Terms.{set_mu, with_mu, bm25_terms, lm_terms, cosine_terms}

module _ (S : SkipMap Entry) (T : TermMap (Term S)) (W : Weights) where
  open S use {entries}
  open T use {Trie, find}
  open W use {Weight}

  module _ (N : Float64 Weight) (R : Runtime Trie Weight) where
    open N use {
      of_int, decimal, negative, plus, minus, times, over, log, sqrt, pow_two, less, is_zero,
      to_int, format,
    }

    -- The answer to a phrase: its list is nil, or it has too few documents, or its entries are scored.
    unfoldable pub phrase_scores :
        {A : Type 0}
        → SingleTermIndex S T W
        → List Token
        → Bool
        → (Response Weight → A)
        → (PostingList S → Option A)
        → Option A
    unfolding filter_positional error_response
    phrase_scores t query_terms force refused scored =
        elim (filter_positional S T t.lexicon query_terms) [
          | none ↦ none
          | some none ↦ some (
              refused
                (error_response (codes "Could not find phrase using positional posting list")))
          | some (some pl) ↦
              elim (not force
                && ltb (entry_count S pl)
                    (to_int (times (decimal 1 2) (of_int t.document_count)))) [
                      | false ↦ scored pl
                      | true ↦ some (
                          refused (
                            error_response (
                              codes "Insufficient DF ["
                              ++ (format_int (entry_count S pl)
                                  ++ (codes "/"
                                      ++ (format_int t.document_count
                                          ++ codes "] for positional index"))))))
                    ]
        ]

    abbrev pub respond : SingleTermIndex S T W → Option (Dict ℕ Weight) → Option (Response Weight)
    respond t none = none
    respond t (some scores) =
        sorted_response S T W N R (append_scores S T W N R t (λ info score. score) (R.range scores))

    -- `BM25.ProcessPositional`
    unfoldable pub bm25_positional :
        Bm25 Weight → List Token → SingleTermIndex S T W → Bool → Option (Response Weight)
    unfolding phrase_scores score_entries bm25_entry append_scores
    bm25_positional bm query_terms t force =
        phrase_scores t query_terms force (λ r. r)
          (λ pl. respond t (score_entries N (bm25_entry S T W N R bm t 1 pl) (entries pl.list) []))

    -- `DirichletQL.ProcessPositional`; `mu` is set behind the two early returns only.
    unfoldable pub lm_positional :
        Weight → List Token → SingleTermIndex S T W → Bool → Option (Response Weight × Weight)
    unfolding phrase_scores score_entries lm_entry append_scores set_mu
    lm_positional mu query_terms t force =
        phrase_scores t query_terms force (λ r. (r, mu))
          (λ pl. with_mu S T W N R (set_mu S T W N R mu t) (
            respond t (
              score_entries N (lm_entry S T W N R (set_mu S T W N R mu t) t (negative (of_int 1)))
                (entries pl.list) [])))

    -- The last loop of `CosineVSM.ProcessPositional`, where `doc_weight` goes on from document to document.
    unfoldable pub append_weighed :
        SingleTermIndex S T W → Weight → List (ℕ × Weight) → Option (List (Result Weight))
    unfolding sum_squares
    append_weighed t doc_weight [] = some []
    append_weighed t doc_weight ((id, numerator) ∷ rest) = elim (lookup id t.document_map) [
      | none ↦ none
      | some info ↦ elim (append_weighed t (sum_squares N doc_weight info.term_tf_idf) rest) [
        | none ↦ none
        | some results ↦ some (
            record {
              document = info.human_id;
              score = over numerator (sqrt (sum_squares N doc_weight info.term_tf_idf));
              info = [];
            }
            ∷ results)
      ]
    ]

    -- `CosineVSM.ProcessPositional`
    unfoldable pub cosine_positional :
        List Token → SingleTermIndex S T W → Bool → Option (Response Weight)
    unfolding phrase_scores score_entries cosine_entry append_weighed
    cosine_positional query_terms t force =
        phrase_scores t query_terms force (λ r. r)
          (λ pl.
            elim (score_entries N (λ e. some (cosine_entry S T W N R t pl e)) (entries pl.list)
              []) [
                | none ↦ none
                | some scores ↦
                    sorted_response S T W N R (append_weighed t (of_int 0) (R.range scores))
              ])

    -- `ProcessQuery` of the three rankers
    unfoldable pub bm25_query :
        Bm25 Weight → List Token → SingleTermIndex S T W → Bool → Option (Response Weight)
    unfolding bm25_positional bm25_terms
    bm25_query bm query_terms t force =
        if t.pl_init.is_positional
        then bm25_positional bm query_terms t force
        else bm25_terms S T W N R bm query_terms t force

    unfoldable pub lm_query :
        Weight → List Token → SingleTermIndex S T W → Bool → Option (Response Weight × Weight)
    unfolding lm_positional lm_terms
    lm_query mu query_terms t force =
        if t.pl_init.is_positional
        then lm_positional mu query_terms t force
        else lm_terms S T W N R mu query_terms t force

    unfoldable pub cosine_query :
        List Token → SingleTermIndex S T W → Bool → Option (Response Weight)
    unfolding cosine_positional cosine_terms
    cosine_query query_terms t force =
        if t.pl_init.is_positional
        then cosine_positional query_terms t force
        else cosine_terms S T W N R query_terms t force
