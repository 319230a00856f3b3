-- ===== src/QueryEngine/Engine.antt =====
-- One message in the loop of `ZeroMQEngine.Start` (query_engine/engine.go), from the channel behind the
-- filters on. The rankers, the order of idf, the tests on floating-point numbers, `LookupStats` and what
-- `json.Marshal` takes are parameters.
pub mod Answers
use irengine.Common.{
  ℕ, if◌then◌else◌, Bool, true, false, Option, none, some, List, [], ◌∷◌, ◌++◌, Text, codes, Dict,
  text_key, lookup,
}
use irengine.FileReader.Token.{Token}
use irengine.QueryEngine.Tokens.{get_doc_tokens, threshold_query_terms}
use irengine.QueryEngine.Response.{Response, error_response, extend_unique}

pub data QueryType : Type 0 where
  stats_query phrase_query : QueryType

-- `Query`, with the type of its threshold as a parameter.
pub record Query (Thresh : Type 0) : Type 0 where
  pub id : Text
  pub text : Text
  pub engine : Text
  pub index_pref : Text
  pub force : Bool
  pub query_thresh : Thresh
  pub type : QueryType

-- What the engine calls: the registered rankers, of which `none` is a panic, the tests of the threshold,
-- the tokens sorted by idf, the statistics of a term, and whether `json.Marshal` has no error.
pub record Index (Score Thresh : Type 0) : Type 0 where
  pub ranking_engines : Dict Text (List Token → Bool → Option (Response Score))
  pub below_one : Thresh → Bool
  pub in_first : Thresh → ℕ → ℕ → Bool
  pub sort_idf : List Token → List Token
  pub lookup_stats : Text → Response Score
  pub marshals : Response Score → Bool

-- What becomes of a message: a response is sent, with what is left in the channel, or the engine waits
-- for tokens that do not come, or it panics.
pub data Answer (Score : Type 0) : Type 0 where
  sends : Response Score → List Token → Answer Score
  waits : Answer Score
  panics : Answer Score

module _ {Score : Type 0} where
  abbrev pub new_response_set : Response Score
  new_response_set = record { results = none; error = []; source = [] }

  -- The loop over the term sets, which breaks after the first one.
  unfoldable pub query_sets :
      ((List Token → Bool → Option (Response Score))
        → Bool
        → List (List Token)
        → Response Score
        → Option (Response Score))
  query_sets ranker force [] result_set = some result_set
  query_sets ranker force (terms ∷ rest) result_set = elim (ranker terms force) [
    | none ↦ none
    | some results ↦ some (extend_unique result_set results)
  ]

module _ {Score Thresh : Type 0} (index : Index Score Thresh) where
  unfoldable pub thresholded : Query Thresh → List Token → List (List Token)
  unfolding threshold_query_terms
  thresholded query tokens =
      if index.below_one query.query_thresh
      then (let (first, second) =
            threshold_query_terms (index.in_first query.query_thresh) (index.sort_idf tokens) in
          first ∷ second ∷ [])
      else tokens ∷ []

  -- `json.Marshal` and `SendBytes`
  unfoldable pub send_json : Response Score → List Token → Answer Score
  send_json r left = if index.marshals r then sends r left else panics

  -- The message for a query, with what the channel behind the filters gives from now on, where
  -- `TokenizeToChan` and the filters have put the tokens of the query.
  unfoldable pub answer : Query Thresh → List Token → Answer Score
  unfolding thresholded query_sets get_doc_tokens error_response send_json
  answer query channel = elim query.type [
    | stats_query ↦ send_json (index.lookup_stats query.text) channel
    | phrase_query ↦ elim (lookup query.engine index.ranking_engines) [
      | none ↦
          send_json (error_response (codes "Unsupported ranking engine: " ++ query.engine)) channel
      | some ranker ↦ elim (get_doc_tokens channel) [
        | none ↦ waits
        | some (filtered, left) ↦
            elim (query_sets ranker query.force (thresholded query filtered) new_response_set) [
              | none ↦ panics
              | some result_set ↦ send_json result_set left
            ]
      ]
    ]
  ]
