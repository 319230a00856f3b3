-- ===== src/QueryEngine/Ranking/Answers.antt =====
-- The answers of the rankers for an index without positions.
use mathlib.Core.List.{Perm}
use irengine.Common.{
  ℕ, ◌≡◌, ◌↔◌, if◌then◌else◌, Bool, not, ◌&&◌, Option, none, some, List, [], nat_key,
}
use irengine.FileReader.Token.{Token}
use irengine.Indexer.SkipMap.{SkipMap}
use irengine.Indexer.Entry.{Entry}
use irengine.Indexer.TermMap.{TermMap}
use irengine.Indexer.Lexicon.{Term}
use irengine.Indexer.SingleTerm.{StoredDocInfo, Weights, SingleTermIndex}
use irengine.QueryEngine.Response.{Result, Response, new_response}
use irengine.QueryEngine.Ranking.{
  Float64, Runtime, low_df, low_df_response, Bm25, bm25_entry, lm_entry, cosine_entry, count_terms,
  tf_of, sum_squares,
}
use irengine.QueryEngine.Ranking.Terms.{
  with_mu, bm25_terms, lm_terms, set_mu, cosine_terms, query_weight,
}
use irengine.QueryEngine.Ranking.Scores.{document_score, document_frequencies}
use irengine.QueryEngine.Ranking.Results.{
  Listed, AreOnce, IsDescending, RangeLaw, SortLaw, AreResults, IsRankable,
}

module _ (S : SkipMap Entry) (T : TermMap (Term S)) (W : Weights) where
  open S use {entries}
  open T use {Trie, find}
  open W use {Weight}

  module _ (N : Float64 Weight) (R : Runtime Trie Weight) where
    module _ (t : SingleTermIndex S T W) (ok : IsRankable S T W N R t) where
      -- The answer: unless the document frequencies are too low, one result for each document that has a
      -- score, the higher scores in front.
      abbrev pub Answered :
          (Token → Term S → Entry → Option Weight)
          → (StoredDocInfo Weight → Weight → Weight)
          → List Token
          → Bool
          → Option (Response Weight)
          → Type 0
      Answered partial final terms force response =
          (pairs : List (ℕ × Weight)) × (results : List (Result Weight)) × (rs : List
            (Result Weight))
          × (response
              ≡ some (
                  if not force
                    && low_df S T W N R t
                        (document_frequencies S T W N R t.lexicon terms (N.of_int 0))
                  then low_df_response S T W N R
                      (document_frequencies S T W N R t.lexicon terms (N.of_int 0))
                  else record new_response { results = some rs }))
          × (AreOnce S T W N R pairs
              × ((d : ℕ) (x : Weight)
                  → Listed (d, x) pairs
                    ↔ (document_score S T W N R partial t.lexicon d terms none ≡ some x)))
          × AreResults S T W N R t final pairs results
          × (Perm results rs × IsDescending S T W N R rs)

      module _ (ranged : RangeLaw S T W N R) (sorted : SortLaw S T W N R) where
        abbrev cosine_added : List Token → Token → Term S → Entry → Weight
        cosine_added terms q term e =
            N.times (cosine_entry S T W N R t term.pl e)
              (N.of_int (tf_of (count_terms [] terms) q.text))

        abbrev cosine_score : List Token → StoredDocInfo Weight → Weight → Weight
        cosine_score terms info numerator = N.over numerator (
            N.sqrt (
              N.times (sum_squares N (N.of_int 0) info.term_tf_idf)
                (query_weight S T W N R t.lexicon (count_terms [] terms) terms (N.of_int 0))))

        -- The answers of BM25, the vector model and the language model to a query.
        abbrev pub AllAnswered : Bm25 Weight → Weight → List Token → Bool → Type 0
        AllAnswered bm mu terms force =
            Answered
              (λ q term. bm25_entry S T W N R bm t (tf_of (count_terms [] terms) q.text) term.pl)
              (λ info x. x) terms force (bm25_terms S T W N R bm terms t force)
            × Answered (λ q term e. some (cosine_added terms q term e)) (cosine_score terms) terms
                force (cosine_terms S T W N R terms t force)
            × (response : Option (Response Weight)) × (lm_terms S T W N R mu terms t force
                ≡ with_mu S T W N R (set_mu S T W N R mu t) response)
            × Answered (λ q term. lm_entry S T W N R (set_mu S T W N R mu t) t (N.of_int term.tf))
                (λ info x. x) terms force response
