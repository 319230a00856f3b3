-- ===== src/Constrained/Lexicon/Disk.antt =====
-- `SaveToDisk` and `LoadFromDisk` of indexer/constrained/lexicon.go. `none` is a panic.
pub mod Filed
pub mod Dumped
pub mod Saved
pub mod Loaded
pub mod Indexed
pub mod Sets
pub mod RoundTrip
use irengine.Common.{
  ℕ, ◌+◌, if◌then◌else◌, Bool, true, false, Option, none, some, List, [], ◌∷◌, Text, Dict, nat_key,
  text_key, lookup,
}
use irengine.Indexer.SkipMap.{SkipMap}
use irengine.Indexer.Entry.{Entry, frequency}
use irengine.Indexer.PostingList.{PostingList, create_basic}
use irengine.Indexer.TermMap.{TermMap}
use irengine.Constrained.PostingListSet.{PostingListSet, new_posting_list_set, load}
use irengine.Constrained.Lexicon.{LoadTests, Container, Lexicon, init_lexicon}
use irengine.Constrained.Lexicon.Memory.{store, add_pls, dump_pls, evict}
use irengine.Constrained.Lexicon.Metadata.{write_metadata, read_metadata}
use irengine.Constrained.Lexicon.Terms.{PersistentTerm}

-- The trie beside what `evict` leaves.
abbrev evicted : {L K : Type 0} → K → Option L → Option (L × K)
evicted trie none = none
evicted trie (some lex) = some (lex, trie)

abbrev pub sum_frequencies : List (ℕ × Entry) → ℕ
sum_frequencies [] = 0
sum_frequencies ((d, value) ∷ rest) = frequency value + sum_frequencies rest

module _ (S : SkipMap Entry) where
  open S use {entries}

  -- The set of a tag that is on disk only comes into memory; without a file it is empty.
  unfoldable pub read_swapped : Lexicon S → Text → Option (PostingListSet S)
  read_swapped lex tag = elim (lookup tag lex.disk) [
    | none ↦ some (new_posting_list_set S lex.pl_init)
    | some text ↦ load S (new_posting_list_set S lex.pl_init) text
  ]

  module _ (T : TermMap PersistentTerm) where
    open T use {Trie, insert_key}

    -- The loop of `LoadFromDisk` over the terms of a set, in an order.
    unfoldable pub insert_terms : Text → Dict Text (PostingList S) → Trie → Trie
    insert_terms tag [] trie = trie
    insert_terms tag ((term_s, pl) ∷ rest) trie = insert_terms tag rest (
        insert_key term_s
          (record { text = term_s; tf = sum_frequencies (entries pl.list); data_tag = tag }) trie)

  module _ (F : LoadTests) (can_create : Text → Bool) where
    unfoldable pub bring_back : Lexicon S → Text → ℕ → Container S → Option (Lexicon S)
    unfolding read_swapped
    bring_back lex tag a c = elim c.pls [
      | some pls ↦ some lex
      | none ↦ elim (read_swapped lex tag) [
        | none ↦ none
        | some pls ↦ evict S F can_create (store S lex a (record c { pls = some pls }))
      ]
    ]

    -- A round of the loop of `SaveToDisk`
    unfoldable pub save_pls : Lexicon S → Text → ℕ → Option (Lexicon S)
    unfolding bring_back
    save_pls lex tag a = elim (lookup a lex.containers) [
      | none ↦ none
      | some c ↦ elim (bring_back lex tag a c) [
        | none ↦ none
        | some lex' ↦ elim (lookup a lex'.containers) [
          | none ↦ none
          | some c' ↦ dump_pls S can_create lex' c'
        ]
      ]
    ]

    unfoldable pub save_sets : List (Text × ℕ) → Lexicon S → Option (Lexicon S)
    unfolding save_pls
    save_sets [] lex = some lex
    save_sets ((tag, a) ∷ sets) lex = elim (save_pls lex tag a) [
      | none ↦ none
      | some lex' ↦ save_sets sets lex'
    ]

    -- `SaveToDisk`, with the text of the file of the metadata, which can be created or not. The map of
    -- the sets is gone through in an order.
    unfoldable pub save_to_disk : Bool → Lexicon S → Option (Lexicon S × Text)
    unfolding save_sets
    save_to_disk can_create_metadata lex =
        if can_create_metadata
        then elim (save_sets lex.pl_set_cache lex) [
          | none ↦ none
          | some lex' ↦ some (lex', write_metadata S lex)
        ]
        else none

    module _ (T : TermMap PersistentTerm) where
      open T use {Trie, empty}

      -- A round of the loop over the files. A file that cannot be opened is passed over.
      unfoldable pub load_set : Lexicon S → Trie → Text → Option (Lexicon S × Trie)
      unfolding insert_terms
      load_set lex trie tag = elim (lookup tag lex.disk) [
        | none ↦ evicted trie (evict S F can_create lex)
        | some text ↦ elim (load S (new_posting_list_set S lex.pl_init) text) [
          | none ↦ none
          | some pls ↦
              evicted (insert_terms T tag pls.list_map trie)
                (evict S F can_create (add_pls S lex tag pls))
        ]
      ]

      unfoldable pub load_sets : List Text → Lexicon S → Trie → Option (Lexicon S × Trie)
      unfolding load_set
      load_sets [] lex trie = some (lex, trie)
      load_sets (tag ∷ tags) lex trie = elim (load_set lex trie tag) [
        | none ↦ none
        | some (lex', trie') ↦ load_sets tags lex' trie'
      ]

      -- `LoadFromDisk` of a directory with the files of some tags, which `glob` lists, and with the file
      -- of the metadata, if it can be opened. (The initializer is nil before `ReadMetadata` sets it.)
      unfoldable pub load_from_disk :
          ((Dict Text Text → List Text) → Dict Text Text → Option Text → Option (Lexicon S × Trie))
      unfolding load_sets
      load_from_disk glob disk none = none
      load_from_disk glob disk (some metadata) =
          elim (read_metadata S 0 (record (init_lexicon S (create_basic S)) { disk = disk })
            metadata) [ none ↦ none | some lex ↦ load_sets (glob disk) lex empty ]
