-- ===== src/QueryEngine/Dispatcher.antt =====
-- One query in the loop of `query_engine_action.Run` (scanner/actions/query_engine.go). A deployed
-- engine is the function from the query sent to it to the message that it answers.
pub mod Fallback
use irengine.Common.{
  ℕ, if◌then◌else◌, Bool, true, false, Option, none, some, List, [], ◌∷◌, ◌++◌, Text, codes, Dict,
  text_key, lookup, split, trim_space,
}
use irengine.QueryEngine.Engine.{Query}
use irengine.QueryEngine.Response.{
  Response, error_response, is_empty, is_error, receive_response, send,
}

module _ {Score Thresh : Type 0} (engine_map : Dict Text (Query Thresh → Response Score)) where
  -- The query for an index that `rest` come after: the last one is forced to answer.
  abbrev pub forced : List Text → Query Thresh → Query Thresh
  forced rest query = if is_empty rest then record query { force = true } else query

  -- What comes back from an engine.
  abbrev pub reply : (Query Thresh → Response Score) → Text → Query Thresh → Response Score
  reply deployed index query = record (receive_response (deployed query)) { source = index }

  -- The loop over the preferred indexes; `response` is what the last one left.
  unfoldable pub ask : List Text → Query Thresh → Response Score → Response Score
  unfolding receive_response error_response is_error trim_space
  ask [] query response = response
  ask (index ∷ rest) query response = elim (lookup (trim_space index) engine_map) [
    | none ↦
        ask rest query
          (error_response (codes "No loaded indexes could process prefs: " ++ query.index_pref))
    | some deployed ↦
        let query' = forced rest query in
        let response' = reply deployed index query' in
        elim (is_error response').1 [ true ↦ ask rest query' response' | false ↦ response' ]
  ]

  -- The message that the dispatcher sends for a query, or the panic of `Send`.
  unfoldable pub dispatch :
      (Response Score → Bool) → Query Thresh → Response Score → Option (Response Score)
  unfolding ask send
  dispatch marshals query response =
      send marshals (ask (split b',' query.index_pref) query response)
