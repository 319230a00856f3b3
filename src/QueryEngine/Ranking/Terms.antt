-- ===== src/QueryEngine/Ranking/Terms.antt =====
-- `ProcessQuery` of the rankers for an index without positions.
use irengine.Common.{
  ℕ, if◌then◌else◌, Bool, Option, none, some, List, [], ◌∷◌, Text, Dict, nat_key, text_key,
}
use irengine.FileReader.Token.{Token}
use irengine.Indexer.SkipMap.{SkipMap}
use irengine.Indexer.Entry.{Entry}
use irengine.Indexer.TermMap.{TermMap}
use irengine.Indexer.Lexicon.{Term}
use irengine.Indexer.SingleTerm.{Weights, SingleTermIndex}
use irengine.QueryEngine.Response.{Response}
use irengine.QueryEngine.Ranking.{
  Float64, Bm25, Runtime, tf_of, count_terms, sum_squares, score_terms, bm25_entry, lm_entry,
  cosine_entry, conclude,
}

module _ (S : SkipMap Entry) (T : TermMap (Term S)) (W : Weights) where
  open S use {entries}
  open T use {Trie, find}
  open W use {Weight}

  module _ (N : Float64 Weight) (R : Runtime Trie Weight) where
    open N use {
      of_int, decimal, negative, plus, minus, times, over, log, sqrt, pow_two, less, is_zero,
      to_int, format,
    }

    -- `BM25.ProcessQuery` for an index without positions
    unfoldable pub bm25_terms :
        Bm25 Weight → List Token → SingleTermIndex S T W → Bool → Option (Response Weight)
    unfolding score_terms bm25_entry conclude count_terms
    bm25_terms bm query_terms t force =
        let query_tf = count_terms [] query_terms in
        conclude S T W N R t force (λ info score. score)
          (score_terms S T W N R
            (λ q_term term. bm25_entry S T W N R bm t (tf_of query_tf q_term.text) term.pl)
            t.lexicon query_terms [] (of_int 0))

    -- `lm.mu` once a query was asked
    unfoldable pub set_mu : Weight → SingleTermIndex S T W → Weight
    set_mu mu t =
        if is_zero mu then sqrt (over (of_int (R.len t.lexicon)) (of_int t.document_count)) else mu

    abbrev pub with_mu : Weight → Option (Response Weight) → Option (Response Weight × Weight)
    with_mu mu none = none
    with_mu mu (some response) = some (response, mu)

    -- `DirichletQL.ProcessQuery` for an index without positions, with `mu` behind it.
    unfoldable pub lm_terms :
        Weight → List Token → SingleTermIndex S T W → Bool → Option (Response Weight × Weight)
    unfolding score_terms lm_entry conclude set_mu
    lm_terms mu query_terms t force = with_mu (set_mu mu t) (
        conclude S T W N R t force (λ info score. score)
          (score_terms S T W N R
            (λ q_term term. lm_entry S T W N R (set_mu mu t) t (of_int term.tf)) t.lexicon
            query_terms [] (of_int 0)))

    unfoldable pub query_weight : Trie → Dict Text ℕ → List Token → Weight → Weight
    query_weight lexicon query_tf [] weight = weight
    query_weight lexicon query_tf (q_term ∷ query_terms) weight = elim (find q_term.text lexicon) [
      | none ↦ query_weight lexicon query_tf query_terms weight
      | some term ↦
          query_weight lexicon query_tf query_terms
            (plus weight (pow_two (times (of_int (tf_of query_tf q_term.text)) (of_int 1))))
    ]

    -- `CosineVSM.ProcessQuery` for an index without positions
    unfoldable pub cosine_terms :
        List Token → SingleTermIndex S T W → Bool → Option (Response Weight)
    unfolding score_terms cosine_entry conclude count_terms query_weight sum_squares
    cosine_terms query_terms t force =
        let query_tf = count_terms [] query_terms in
        let weight = query_weight t.lexicon query_tf query_terms (of_int 0) in
        conclude S T W N R t force
          (λ info numerator.
            over numerator (sqrt (times (sum_squares N (of_int 0) info.term_tf_idf) weight)))
          (score_terms S T W N R
            (λ q_term term e.
              some
                (times (cosine_entry S T W N R t term.pl e) (of_int (tf_of query_tf q_term.text))))
            t.lexicon query_terms [] (of_int 0))
