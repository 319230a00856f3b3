-- ===== src/Tests/Query.antt =====
-- Queries and responses.
use irengine.Common.{
  ◌++◌, select, not, Option, true, inr, arith, trim_space, ℕ, ◌+◌, ◌≡◌, refl, Bool, false, none,
  some, List, [], ◌∷◌, codes, text_key, Text, ltb, is_space,
}
use irengine.FileReader.Token.{Token}
use irengine.Tests.{word, doc_end}
use irengine.QueryEngine.Response.{
  extend_unique, Result, Response, empty_results, items, is_error, receive_response, send,
}
use irengine.QueryEngine.Response.Unique.{has_document, extend_unique_lem}
use irengine.QueryEngine.Response.Wire.{is_error-receive_response}
use irengine.QueryEngine.Engine.{Query, Index, phrase_query, sends, answer}
use irengine.QueryEngine.Engine.Answers.{answered, answer_lem}
use irengine.QueryEngine.Dispatcher.{ask}
use irengine.QueryEngine.Dispatcher.Fallback.{last_forced, arrived, ask_first}

abbrev failed : Response ℕ
failed = record { results = none; error = codes "Insufficient DF"; source = codes "phrase" }

abbrev result : Text → ℕ → Result ℕ
result document score = record { document = document; score = score; info = [] }

abbrev found : Response ℕ
found = record {
  results = some (result (codes "FT-7") 3 ∷ result (codes "FT-9") 2 ∷ []);
  error = [];
  source = [];
}

abbrev more : Response ℕ
more = record {
  results = some (result (codes "FT-9") 5 ∷ result (codes "FT-11") 4 ∷ []);
  error = [];
  source = [];
}

abbrev any_response : Response ℕ → Bool
any_response r = true

abbrev message : Response ℕ
message = record failed { error = empty_results }

is_error-receive_response_example :
    (is_error (receive_response message) ≡ ([], false))
    × (items (receive_response message).results ≡ items failed.results)
is_error-receive_response_example =
    is_error-receive_response any_response failed message (unfold send in refl)

extend_unique_lem_example :
    (items (extend_unique found more).results
      ≡ items found.results
        ++ select (λ x. not (has_document x.document (items found.results))) (items more.results))
    × ((extend_unique found more).error ≡ found.error)
    × ((extend_unique found more).source ≡ found.source)
extend_unique_lem_example = extend_unique_lem found more

abbrev terms : List Token
terms = word (codes "new") 0 1 ∷ word (codes "york") 0 2 ∷ []

abbrev bm25 : List Token → Bool → Option (Response ℕ)
bm25 ts force = some found

abbrev index : Index ℕ ℕ
index = record {
  ranking_engines = (codes "BM25", bm25) ∷ [];
  below_one = λ t. ltb t 100;
  in_first = λ t i n. ltb (i + i) n;
  sort_idf = λ ts. ts;
  lookup_stats = λ text. found;
  marshals = any_response;
}

abbrev query : Query ℕ
query = record {
  id = codes "51";
  text = codes "new york";
  engine = codes "BM25";
  index_pref = codes "phrase,single";
  force = false;
  query_thresh = 50;
  type = phrase_query;
}

-- The first one of the two terms is asked for.
answer_lem_example :
    answer index query (word (codes "new") 0 1 ∷ word (codes "york") 0 2 ∷ doc_end 0 ∷ [])
    ≡ sends (answered found) []
answer_lem_example =
    answer_lem index query bm25 terms [] (word (codes "new") 0 1 ∷ []) (doc_end 0) found refl refl
      (refl, (refl, tt)) refl
      (inr (
        refl,
        (word (codes "york") 0 2 ∷ []),
        refl,
        λ i h. ground (arith, h),
        λ i h. ground (arith, h),
      ))
      refl refl

abbrev phrase_engine : Query ℕ → Response ℕ
phrase_engine q = failed

abbrev single_engine : Query ℕ → Response ℕ
single_engine q = found

ask_first_example :
    ask
      ((codes "phrase", phrase_engine) ∷ (codes "single", single_engine) ∷ [])
      (codes "phrase" ∷ codes "single" ∷ [])
      query
      failed
    ≡ arrived
        ((codes "phrase", phrase_engine) ∷ (codes "single", single_engine) ∷ [])
        single_engine
        (codes "single")
        (last_forced
          ((codes "phrase", phrase_engine) ∷ (codes "single", single_engine) ∷ [])
          []
          query)
ask_first_example =
    ask_first ((codes "phrase", phrase_engine) ∷ (codes "single", single_engine) ∷ [])
      (codes "phrase" ∷ []) (codes "single") [] query failed single_engine
      (unfold trim_space is_space is_error in (refl, tt)) (unfold trim_space is_space in refl)
      (unfold is_error in refl)
