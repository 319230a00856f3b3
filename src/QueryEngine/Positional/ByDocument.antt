-- ===== src/QueryEngine/Positional/ByDocument.antt =====
-- A phrase is looked for in each document on its own.
use irengine.Common.{
  ℕ, ◌+◌, ◌≡◌, refl, sym, subst, ap, ◌∙◌, true, Option, none, some, List, [], ◌∷◌, All, Text,
  select,
}
use irengine.FileReader.Token.{Token}
use irengine.Indexer.SkipMap.{SkipMap}
use irengine.Indexer.Entry.{Entry}
use irengine.Indexer.TermMap.{TermMap}
use irengine.Indexer.PostingList.{PostingList, create_positional, get_entry}
use irengine.Indexer.PostingList.Valid.{IsValid}
use irengine.Indexer.PostingList.History.{insert_all-positional}
use irengine.Indexer.PostingList.Filter.{sequential}
use irengine.Indexer.PostingList.Sequential.{filter_sequential_lem}
use irengine.Indexer.Lexicon.{Term}
use irengine.Indexer.Lexicon.Terms.{is_of, term_of, insert_tokens, find-insert_tokens}
use irengine.QueryEngine.Positional.{filter_lists, retrieve_lists, filter_positional}

-- What is left of one document, from what the list so far and the lists of the terms have of it.
unfoldable pub in_document :
    ℕ → ℕ → Option (Option Entry) → List (Option (Option Entry)) → Option (Option Entry)
in_document d within o [] = o
in_document d within (some e) (some f ∷ fs) = in_document d 1 (some (sequential within d e f)) fs
in_document d within (some e) (none ∷ fs) = in_document d (within + 1) (some e) fs
in_document d within none (none ∷ fs) = in_document d within none fs
in_document d within none (some f ∷ fs) = in_document d within (some f) fs

module _ (S : SkipMap Entry) where
  abbrev pub IsUsable : Option (PostingList S) → Type 0
  IsUsable none = Unit
  IsUsable (some pl) = IsValid S pl × (pl.is_positional ≡ true)

  -- What a list has of a document; a list that is nil has nothing to ask.
  abbrev pub of_document : ℕ → Option (PostingList S) → Option (Option Entry)
  of_document d none = none
  of_document d (some pl) = some (get_entry S pl d)

  abbrev pub all_of_document : ℕ → List (Option (PostingList S)) → List (Option (Option Entry))
  all_of_document d [] = []
  all_of_document d (o ∷ os) = of_document d o ∷ all_of_document d os

  pub filter_lists_lem :
      (within : ℕ) (o : Option (PostingList S)) (os : List (Option (PostingList S)))
      → IsUsable o
      → All IsUsable os
      → (r : Option (PostingList S)) × (filter_lists S within o os ≡ some r)
        × IsUsable r
        × ((d : ℕ)
            → of_document d r ≡ in_document d within (of_document d o) (all_of_document d os))
  unfolding filter_lists in_document
  filter_lists_lem within none [] u us = (none, refl, u, λ d. refl)
  filter_lists_lem within (some pl) [] u us = (some pl, refl, u, λ d. refl)
  filter_lists_lem within none (none ∷ os) u (v, us) = filter_lists_lem within none os u us
  filter_lists_lem within none (some q ∷ os) u (v, us) = filter_lists_lem within (some q) os v us
  filter_lists_lem within (some pl) (none ∷ os) u (v, us) =
      filter_lists_lem (within + 1) (some pl) os u us
  filter_lists_lem within (some pl) (some q ∷ os) (u, p) ((v, q'), us) =
      let (f, e, valid, kind, view) = filter_sequential_lem S pl q within u v p q' in
      let (r, l, usable, views) = filter_lists_lem 1 (some f) os (valid, kind) us in
      (
        r,
        rw (e, filter_lists) l,
        usable,
        λ d. views d ∙ ap (λ x. in_document d 1 (some x) (all_of_document d os)) (view d),
      )

  module _ (T : TermMap (Term S)) where
    term_of-IsUsable :
        (x : Text) (us : List Token)
        → IsUsable
            (elim (term_of S (create_positional S) x us) [ none ↦ none | some term ↦ some term.pl ])
    term_of-IsUsable x [] = tt
    term_of-IsUsable x (u ∷ us) =
        let made = insert_all-positional S (u ∷ us) in (made.valid, made.kind)

    retrieve_lists-IsUsable :
        (ts qs : List Token)
        → All IsUsable (retrieve_lists S T (insert_tokens S T (create_positional S) T.empty ts) qs)
    unfolding retrieve_lists
    retrieve_lists-IsUsable ts [] = tt
    retrieve_lists-IsUsable ts (q ∷ qs) = (
      subst (λ o. IsUsable (elim o [ none ↦ none | some term ↦ some term.pl ]))
          (sym (find-insert_tokens S T (create_positional S) ts q.text))
          (term_of-IsUsable q.text (select (is_of q.text) ts)),
      retrieve_lists-IsUsable ts qs,
    )

    -- In an index of positions, `FilterPositional` does not panic, and of each document it finds what the
    -- loop finds that has that document alone: the positions of the last term that are in reach of those
    -- of the term before it, and so on, with one more position for each term that the index lacks.
    pub filter_positional_lem :
        (ts qs : List Token)
        → (r : Option (PostingList S)) × (filter_positional S T
              (insert_tokens S T (create_positional S) T.empty ts)
              qs
            ≡ some r)
          × IsUsable r
          × ((d : ℕ)
              → of_document d r
                ≡ in_document d 1 none (
                    all_of_document d
                      (retrieve_lists S T (insert_tokens S T (create_positional S) T.empty ts) qs)))
    unfolding filter_positional
    filter_positional_lem ts qs =
        filter_lists_lem 1 none
          (retrieve_lists S T (insert_tokens S T (create_positional S) T.empty ts) qs) tt
          (retrieve_lists-IsUsable ts qs)
