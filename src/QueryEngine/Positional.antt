-- ===== src/QueryEngine/Positional.antt =====
-- `FilterPositional` of query_engine/bm25.go.
pub mod ByDocument
use irengine.Common.{ℕ, ◌+◌, Option, none, some, List, [], ◌∷◌}
use irengine.FileReader.Token.{Token}
use irengine.Indexer.SkipMap.{SkipMap}
use irengine.Indexer.Entry.{Entry}
use irengine.Indexer.TermMap.{TermMap}
use irengine.Indexer.PostingList.{PostingList, filter_sequential}
use irengine.Indexer.Lexicon.{Term}

module _ (S : SkipMap Entry) where
  -- The switch of the loop and the loop, over the posting lists of the terms, with nil for a term that
  -- the index does not have. The outer `none` is the panic on a list without positions.
  unfoldable pub filter_lists :
      (ℕ → Option (PostingList S) → List (Option (PostingList S)) → Option (Option (PostingList S)))
  filter_lists within pl [] = some pl
  filter_lists within (some pl) (some term ∷ terms) = elim (filter_sequential S pl term within) [
    | none ↦ none
    | some pl' ↦ filter_lists 1 (some pl') terms
  ]
  filter_lists within (some pl) (none ∷ terms) = filter_lists (within + 1) (some pl) terms
  filter_lists within none (none ∷ terms) = filter_lists within none terms
  filter_lists within none (some term ∷ terms) = filter_lists within (some term) terms

  module _ (T : TermMap (Term S)) where
    open T use {Trie, find}

    -- `Retrieve` and `PostingList` of each term
    unfoldable pub retrieve_lists : Trie → List Token → List (Option (PostingList S))
    retrieve_lists lexicon [] = []
    retrieve_lists lexicon (q_term ∷ q_terms) =
        (elim (find q_term.text lexicon) [ none ↦ none | some term ↦ some term.pl ])
        ∷ retrieve_lists lexicon q_terms

    unfoldable pub filter_positional : Trie → List Token → Option (Option (PostingList S))
    unfolding filter_lists retrieve_lists
    filter_positional lexicon query_terms = filter_lists 1 none (retrieve_lists lexicon query_terms)
