-- ===== src/QueryEngine/Ranking.antt =====
-- The rankers of query_engine: bm25.go, cosine_vsm.go and language_model.go. Floating-point numbers are
-- a parameter. `none` is the panic on a document that the map of the index does not have.
pub mod Terms
pub mod Phrases
pub mod Scores
pub mod Results
pub mod Answers
use irengine.Common.{
  ℕ, suc, ◌+◌, ◌*◌, if◌then◌else◌, ltb, Bool, true, false, not, ◌&&◌, Option, none, some, List, [],
  ◌∷◌, ◌++◌, Text, codes, Dict, nat_key, text_key, lookup, insert, format_int,
}
use irengine.FileReader.Token.{Token}
use irengine.Indexer.SkipMap.{SkipMap}
use irengine.Indexer.Entry.{Entry, doc_id, frequency}
use irengine.Indexer.TermMap.{TermMap}
use irengine.Indexer.PostingList.{PostingList, entry_count}
use irengine.Indexer.Lexicon.{Term}
use irengine.Indexer.SingleTerm.{StoredDocInfo, Weights, SingleTermIndex}
use irengine.QueryEngine.Positional.{filter_positional}
use irengine.QueryEngine.Response.{Result, Response, error_response, new_response}

-- `decimal n k` is the constant n / 10 ^ k, `to_int` drops the fraction, and `format` is `%0.4f`.
pub record Float64 (F : Type 0) : Type 0 where
  pub of_int : ℕ → F
  pub decimal : ℕ → ℕ → F
  pub negative : F → F
  pub plus : F → F → F
  pub minus : F → F → F
  pub times : F → F → F
  pub over : F → F → F
  pub log : F → F
  pub sqrt : F → F
  pub pow_two : F → F
  pub less : F → F → Bool
  pub is_zero : F → Bool
  pub to_int : F → ℕ
  pub format : F → Text

-- `BM25`
pub record Bm25 (F : Type 0) : Type 0 where
  pub k1 : F
  pub k2 : ℕ
  pub b : F

-- A map of counts, with 0 for a key that is not there.
abbrev pub tf_of : Dict Text ℕ → Text → ℕ
tf_of query_tf text = elim (lookup text query_tf) [ none ↦ 0 | some n ↦ n ]

-- `query_tf`
unfoldable pub count_terms : Dict Text ℕ → List Token → Dict Text ℕ
count_terms query_tf [] = query_tf
count_terms query_tf (q_term ∷ query_terms) =
    count_terms (insert q_term.text (tf_of query_tf q_term.text + 1) query_tf) query_terms

module _ {F : Type 0} (N : Float64 F) where
  open N use {
    of_int, decimal, negative, plus, minus, times, over, log, sqrt, pow_two, less, is_zero, to_int,
    format,
  }

  unfoldable pub new_bm25 : Bm25 F
  new_bm25 = record { k1 = decimal 12 1; k2 = 1; b = decimal 75 2 }

  -- A float in a map, with 0 for a key that is not there.
  abbrev pub or_zero : Option F → F
  or_zero none = of_int 0
  or_zero (some score) = score

  -- `docScores[id] += partial`
  unfoldable pub add_score : ℕ → F → Dict ℕ F → Dict ℕ F
  add_score id partial scores = insert id (plus (or_zero (lookup id scores)) partial) scores

  -- The loop over a posting list, with what is added for an entry.
  unfoldable pub score_entries :
      (Entry → Option F) → List (ℕ × Entry) → Dict ℕ F → Option (Dict ℕ F)
  unfolding add_score
  score_entries partial [] scores = some scores
  score_entries partial ((k, e) ∷ es) scores = elim (partial e) [
    | none ↦ none
    | some x ↦ score_entries partial es (add_score (doc_id e) x scores)
  ]

  -- `Idf` of a posting list
  unfoldable pub idf : ℕ → ℕ → F
  idf df documents = log (
      over (plus (minus (of_int documents) (of_int df)) (decimal 5 1))
        (plus (of_int df) (decimal 5 1)))

  unfoldable pub sum_squares : F → Dict Text F → F
  sum_squares sum [] = sum
  sum_squares sum ((term, w) ∷ weights) = sum_squares (plus sum (pow_two w)) weights

  -- The score of an entry in BM25, for a document of so many terms.
  unfoldable pub bm25_partial : Bm25 F → F → ℕ → F → ℕ → ℕ → F
  bm25_partial bm avg_doc_len q_term_tf idf frequency term_count =
      let tf_d = plus (of_int 1) (log (of_int frequency)) in
      let length = times bm.b (over (of_int term_count) avg_doc_len) in
      let partial =
        over (times tf_d (plus bm.k1 (of_int 1)))
          (plus tf_d (times bm.k1 (plus (minus (of_int 1) bm.b) length))) in
      times idf
        (times partial (over (of_int ((bm.k2 + 1) * q_term_tf)) (of_int (bm.k2 * q_term_tf))))

  -- The score of an entry in the language model.
  unfoldable pub lm_partial : F → F → ℕ → ℕ → ℕ → F
  lm_partial mu tf terms frequency term_count = log (
      times
        (over (plus (of_int frequency) (times mu (over tf (of_int terms))))
          (plus (of_int term_count) mu))
        (of_int 1000))

-- What the rankers use of a runtime: the length of the lexicon, the order in which a map is read, and
-- `sort.Sort` with the order of the responses.
pub record Runtime (Trie F : Type 0) : Type 0 where
  pub len : Trie → ℕ
  pub range : Dict ℕ F → List (ℕ × F)
  pub sort : List (Result F) → List (Result F)

module _ (S : SkipMap Entry) (T : TermMap (Term S)) (W : Weights) where
  open S use {entries}
  open T use {Trie, find}
  open W use {Weight}

  module _ (N : Float64 Weight) (R : Runtime Trie Weight) where
    open N use {
      of_int, decimal, negative, plus, minus, times, over, log, sqrt, pow_two, less, is_zero,
      to_int, format,
    }

    -- The loop over the terms of a query: the scores and `avgDf`.
    unfoldable pub score_terms :
        ((Token → Term S → Entry → Option Weight)
          → Trie
          → List Token
          → Dict ℕ Weight
          → Weight
          → Option (Dict ℕ Weight × Weight))
    unfolding score_entries
    score_terms partial lexicon [] scores avg_df = some (scores, avg_df)
    score_terms partial lexicon (q_term ∷ query_terms) scores avg_df =
        elim (find q_term.text lexicon) [
          | none ↦ score_terms partial lexicon query_terms scores avg_df
          | some term ↦ elim (score_entries N (partial q_term term) (entries term.pl.list) scores) [
            | none ↦ none
            | some scores' ↦
                score_terms partial lexicon query_terms scores'
                  (plus avg_df (of_int (entry_count S term.pl)))
          ]
        ]

    -- What is done with the statistics of the document of an entry.
    abbrev pub with_info :
        {A : Type 0} → SingleTermIndex S T W → ℕ → (StoredDocInfo Weight → A) → Option A
    with_info t id f = elim (lookup id t.document_map) [ none ↦ none | some info ↦ some (f info) ]

    unfoldable pub bm25_entry :
        Bm25 Weight → SingleTermIndex S T W → ℕ → PostingList S → Entry → Option Weight
    unfolding bm25_partial idf
    bm25_entry bm t q_term_tf pl e =
        let avg_doc_len = over (of_int (R.len t.lexicon)) (of_int t.document_count) in
        with_info t (doc_id e) (λ info.
          bm25_partial N bm avg_doc_len q_term_tf (idf N (entry_count S pl) t.document_count)
            (frequency e) info.term_count)

    unfoldable pub lm_entry : Weight → SingleTermIndex S T W → Weight → Entry → Option Weight
    unfolding lm_partial
    lm_entry mu t tf e =
        with_info t (doc_id e)
          (λ info. lm_partial N mu tf (R.len t.lexicon) (frequency e) info.term_count)

    unfoldable pub cosine_entry : SingleTermIndex S T W → PostingList S → Entry → Weight
    unfolding idf
    cosine_entry t pl e =
        times (plus (of_int 1) (log (of_int (frequency e))))
          (idf N (entry_count S pl) t.document_count)

    -- The loop that appends a result for each score, made of the document's statistics.
    unfoldable pub append_scores :
        SingleTermIndex S T W
        → (StoredDocInfo Weight → Weight → Weight)
        → List (ℕ × Weight)
        → Option (List (Result Weight))
    append_scores t final [] = some []
    append_scores t final ((id, score) ∷ rest) = elim (lookup id t.document_map) [
      | none ↦ none
      | some info ↦ elim (append_scores t final rest) [
        | none ↦ none
        | some results ↦
            some
              (record { document = info.human_id; score = final info score; info = [] } ∷ results)
      ]
    ]

    abbrev pub sorted_response : Option (List (Result Weight)) → Option (Response Weight)
    sorted_response none = none
    sorted_response (some results) = some (record new_response { results = some (R.sort results) })

    unfoldable pub low_df : SingleTermIndex S T W → Weight → Bool
    low_df t avg_df = less avg_df (times (of_int t.document_count) (decimal 1 2))

    unfoldable pub low_df_response : Weight → Response Weight
    unfolding error_response
    low_df_response avg_df =
        error_response (codes "Avg DF " ++ (format avg_df ++ codes " too low for index"))

    -- What follows the loop over the terms.
    unfoldable pub conclude :
        SingleTermIndex S T W
        → Bool
        → (StoredDocInfo Weight → Weight → Weight)
        → Option (Dict ℕ Weight × Weight)
        → Option (Response Weight)
    unfolding append_scores low_df low_df_response
    conclude t force final none = none
    conclude t force final (some (scores, avg_df)) = elim (not force && low_df t avg_df) [
      | true ↦ some (low_df_response avg_df)
      | false ↦ sorted_response (append_scores t final (R.range scores))
    ]
