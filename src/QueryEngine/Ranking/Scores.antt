-- ===== src/QueryEngine/Ranking/Scores.antt =====
-- The scores of documents, one by one: what the loops of the rankers compute.
use irengine.Common.{
  ℕ, ◌==◌, ◌<◌, ==_iff, ◌≡◌, inl, inr, refl, ap, ◌∙◌, if◌then◌else◌, Bool, Bool-cases, Option-cases,
  Option, none, some, List, [], ◌∷◌, All, Text, Dict, nat_key, lookup, lookup-insert,
}
use irengine.FileReader.Token.{Token}
use irengine.Indexer.SkipMap.{SkipMap}
use irengine.Indexer.Ordered.{IsOrdered, lookup_above}
use irengine.Indexer.Entry.{Entry, basic, positional, doc_id}
use irengine.Indexer.TermMap.{TermMap}
use irengine.Indexer.PostingList.{entry_count, get_entry}
use irengine.Indexer.PostingList.Valid.{IsEntry, IsValid}
use irengine.Indexer.Lexicon.{Term}
use irengine.Indexer.SingleTerm.{Weights}
use irengine.QueryEngine.Ranking.{Float64, Runtime, or_zero, add_score, score_entries, score_terms}

module _ {F : Type 0} (N : Float64 F) where
  -- The score of a document after a list of entries that may have one of it.
  abbrev pub entry_added : (Entry → Option F) → Option Entry → Option F → Option F
  entry_added partial none old = old
  entry_added partial (some e) old = elim (partial e) [
    | none ↦ old
    | some x ↦ some (N.plus (or_zero N old) x)
  ]

  lookup-add_score :
      (id d : ℕ) (x : F) (scores : Dict ℕ F)
      → lookup d (add_score N id x scores)
        ≡ (if id == d then some (N.plus (or_zero N (lookup id scores)) x) else lookup d scores)
  unfolding add_score
  lookup-add_score id d x scores =
      lookup-insert id d (N.plus (or_zero N (lookup id scores)) x) scores

  -- The first entry of a list, when the other ones are of later documents.
  first_added :
      (partial : Entry → Option F) (k d : ℕ) (e : Entry) (x : F) (es : List (ℕ × Entry))
      (scores : Dict ℕ F)
      → All (λ e. k < e.0) es
      → partial e ≡ some x
      → entry_added partial (lookup d es) (lookup d (add_score N k x scores))
        ≡ entry_added partial (lookup d ((k, e) ∷ es)) (lookup d scores)
  first_added partial k d e x es scores above here =
      rw (lookup-add_score k d x scores) (elim (Bool-cases (k == d)) [
        | inl h ↦
            rw (h, ← (==_iff k d).0 h, lookup_above k es above, here)
              (ap (λ i. some (N.plus (or_zero N (lookup i scores)) x)) ((==_iff k d).0 h))
        | inr h ↦ rw h refl
      ])

  pub score_entries_lem :
      (partial : Entry → Option F) (es : List (ℕ × Entry)) (scores : Dict ℕ F)
      → IsOrdered es
      → All (λ e. doc_id e.1 ≡ e.0) es
      → All (λ e. (x : F) × (partial e.1 ≡ some x)) es
      → (scores' : Dict ℕ F) × (score_entries N partial es scores ≡ some scores')
        × ((d : ℕ) → lookup d scores' ≡ entry_added partial (lookup d es) (lookup d scores))
  unfolding score_entries
  score_entries_lem partial [] scores o ids known = (scores, refl, λ d. refl)
  score_entries_lem partial ((k, e) ∷ es) scores (above, o) (id, ids) ((x, here), known) =
      let (scores', run, view) =
        score_entries_lem partial es (add_score N (doc_id e) x scores) o ids known in
      (
        scores',
        rw (here, score_entries) run,
        λ d. view d ∙ rw id (first_added partial k d e x es scores above here),
      )

pub entry_ids :
    (flag : Bool) (es : List (ℕ × Entry)) → All (IsEntry flag) es → All (λ e. doc_id e.1 ≡ e.0) es
unfolding doc_id
entry_ids flag [] a = tt
entry_ids flag ((k, basic d n) ∷ es) (a, b) = (a.1, entry_ids flag es b)
entry_ids flag ((k, positional d ps) ∷ es) (a, b) = (a.1, entry_ids flag es b)

module _ (S : SkipMap Entry) (T : TermMap (Term S)) (W : Weights) where
  open S use {get-entries, entries, entries-IsOrdered}
  open T use {Trie, find}
  open W use {Weight}

  module _ (N : Float64 Weight) (R : Runtime Trie Weight) where
    -- The score of a document for the terms of a query, added up in their order, and `avgDf`.
    abbrev pub document_score :
        (Token → Term S → Entry → Option Weight)
        → Trie
        → ℕ
        → List Token
        → Option Weight
        → Option Weight
    document_score partial lexicon d [] old = old
    document_score partial lexicon d (q_term ∷ query_terms) old =
        document_score partial lexicon d query_terms (elim (find q_term.text lexicon) [
          | none ↦ old
          | some term ↦ entry_added N (partial q_term term) (get_entry S term.pl d) old
        ])

    abbrev pub document_frequencies : Trie → List Token → Weight → Weight
    document_frequencies lexicon [] sum = sum
    document_frequencies lexicon (q_term ∷ query_terms) sum =
        document_frequencies lexicon query_terms (elim (find q_term.text lexicon) [
          | none ↦ sum
          | some term ↦ N.plus sum (N.of_int (entry_count S term.pl))
        ])

    -- All posting lists are valid, and what is to be added is known for all of their entries.
    pub record Scorable (partial : Token → Term S → Entry → Option Weight) (lexicon : Trie)
        : Type 0 where
      pub valid : (text : Text) (term : Term S) → find text lexicon ≡ some term → IsValid S term.pl
      pub known :
          (q_term : Token) (term : Term S)
          → find q_term.text lexicon ≡ some term
          → All (λ e. (x : Weight) × (partial q_term term e.1 ≡ some x)) (entries term.pl.list)

    pub score_terms_lem :
        (partial : Token → Term S → Entry → Option Weight) (lexicon : Trie)
        (query_terms : List Token) (scores : Dict ℕ Weight) (avg_df : Weight)
        → Scorable partial lexicon
        → (scores' : Dict ℕ Weight) × (score_terms S T W N R partial lexicon query_terms scores
              avg_df
            ≡ some (scores', document_frequencies lexicon query_terms avg_df))
          × ((d : ℕ)
              → lookup d scores' ≡ document_score partial lexicon d query_terms (lookup d scores))
    unfolding score_terms get_entry
    score_terms_lem partial lexicon [] scores avg_df ok = (scores, refl, λ d. refl)
    score_terms_lem partial lexicon (q ∷ qs) scores avg_df ok =
        elim (Option-cases (find q.text lexicon)) [
          | inl h ↦ rw (h, score_terms) (score_terms_lem partial lexicon qs scores avg_df ok)
          | inr (term, h) ↦
              let es = entries term.pl.list in
              let (one, run, view) =
                score_entries_lem N (partial q term) es scores (entries-IsOrdered term.pl.list)
                  (entry_ids term.pl.is_positional es (ok.valid q.text term h).held)
                  (ok.known q term h) in
              let (all, run_all, view_all) =
                score_terms_lem partial lexicon qs one
                  (N.plus avg_df (N.of_int (entry_count S term.pl))) ok in
              (
                all,
                rw (h, score_terms) (rw (run, score_terms) run_all),
                λ d.
                    view_all d
                    ∙ ap (document_score partial lexicon d qs) (view d)
                    ∙ rw (h, get-entries) refl,
              )
        ]
