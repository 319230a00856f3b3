-- ===== src/Tests/History.antt =====
-- The lexicon of bounded memory that takes a token, and is saved and loaded.
use irengine.Common.{
  ◌≡◌, refl, ap, sym, subst, true, Option, none, some, [], ◌∷◌, arith, Text, codes, text_key,
  lookup, pos, format_int, parse_int,
}
use irengine.FileReader.Token.{Token}
use irengine.Tests.{word}
use irengine.Tests.Sets.{S, empty_list, york-IsTerm}
use irengine.Tests.Memory.{strict, can_create, empty_list-IsMaker}
use irengine.Tests.Terms.{T, strict-IsBelow}
use irengine.Tests.Disk.{glob, glob-IsGlob}
use irengine.Indexer.Entry.{new_positional_entry, add_position, serialize}
use irengine.Indexer.TermMap.{TermMap, association_list}
use irengine.Indexer.PostingList.{create_positional}
use irengine.Indexer.PostingList.Inserted.{added_to}
use irengine.Indexer.Lexicon.{Term, insert_token as insert_plain}
use irengine.Constrained.PostingListSet.RoundTrip.{IsDumpable}
use irengine.Constrained.Lexicon.{Lexicon, new_lexicon, set_max_load}
use irengine.Constrained.Lexicon.Terms.{new_term, insert_token}
use irengine.Constrained.Lexicon.Terms.Entries.{entry_of}
use irengine.Constrained.Lexicon.Memory.{evict, evict_loop, settle_load, retrieve_pls, create_pls}
use irengine.Constrained.Lexicon.Disk.{save_to_disk, load_from_disk}
use irengine.Constrained.Lexicon.History.{Reaches, starts, inserts, reloads}
use irengine.Constrained.Lexicon.Metadata.{write_metadata, read_metadata}
use irengine.Constrained.Lexicon.History.Steps.{IsAlike}
use irengine.Constrained.Lexicon.History.Alike.{Reaches-IsAlike}

abbrev P : TermMap (Term S)
P = association_list (Term S)

abbrev york_token : Token
york_token = word (codes "york") 7 2

abbrev first : Lexicon S
first = new_lexicon S empty_list (pos 3)

abbrev lexicon_of : Option (Lexicon S × T.Trie) → Lexicon S
lexicon_of none = first
lexicon_of (some (lex, trie)) = lex

abbrev trie_of : Option (Lexicon S × T.Trie) → T.Trie
trie_of none = T.empty
trie_of (some (lex, trie)) = trie

abbrev written : Option (Lexicon S × Text)
written = save_to_disk S strict can_create true first

abbrev saved_of : Option (Lexicon S × Text) → Lexicon S
saved_of none = first
saved_of (some (lex, metadata)) = lex

abbrev metadata_of : Option (Lexicon S × Text) → Text
metadata_of none = []
metadata_of (some (lex, metadata)) = metadata

written-some : written ≡ some (saved_of written, metadata_of written)
unfolding new_lexicon set_max_load save_to_disk
written-some = refl

abbrev loaded : Option (Lexicon S × T.Trie)
loaded =
    load_from_disk S strict can_create T glob (saved_of written).disk (some (metadata_of written))

loaded-some : loaded ≡ some (lexicon_of loaded, trie_of loaded)
unfolding new_lexicon set_max_load save_to_disk write_metadata format_int load_from_disk
    read_metadata parse_int
loaded-some = refl

loaded-Reaches :
    Reaches S T P strict can_create glob empty_list (lexicon_of loaded) (trie_of loaded) P.empty
loaded-Reaches =
    reloads (saved_of written) (metadata_of written) (starts (pos 3) (omega arith))
      (unfold new_lexicon set_max_load in omega arith) written-some loaded-some

abbrev inserted : Option (Lexicon S × T.Trie)
inserted =
    insert_token S strict can_create T (codes "a0") (codes "b1" ∷ []) (lexicon_of loaded)
      (trie_of loaded) york_token

inserted-some : inserted ≡ some (lexicon_of inserted, trie_of inserted)
unfolding new_lexicon set_max_load save_to_disk write_metadata format_int load_from_disk
    read_metadata parse_int insert_token retrieve_pls evict evict_loop settle_load new_term
    create_pls
inserted-some = refl

york_token-IsDumpable :
    IsDumpable (empty_list.entry_factory 0) (codes "york", added_to true york_token none)
unfolding add_position serialize format_int
york_token-IsDumpable = (york-IsTerm, (omega arith, (omega arith, tt), (tt, tt)), refl, omega arith)

empty_cache : (lexicon_of loaded).pl_set_cache ≡ []
unfolding new_lexicon set_max_load save_to_disk write_metadata format_int load_from_disk
    read_metadata parse_int
empty_cache = refl

empty_trie : trie_of loaded ≡ T.empty
unfolding new_lexicon set_max_load save_to_disk write_metadata format_int load_from_disk
    read_metadata parse_int
empty_trie = refl

york_token-Reaches :
    Reaches S T P strict can_create glob empty_list
      (lexicon_of inserted)
      (trie_of inserted)
      (insert_plain S P empty_list P.empty york_token).0
york_token-Reaches =
    inserts (codes "a0") (codes "b1") [] york_token loaded-Reaches refl
      (ap (lookup (codes "a0")) empty_cache) (ap (lookup (codes "b1")) empty_cache)
      (subst
        (λ o. IsDumpable (empty_list.entry_factory 0) (codes "york", added_to true york_token o))
        (sym (ap (λ m. entry_of S T (lexicon_of loaded) m (codes "york") 7) empty_trie))
        york_token-IsDumpable)
      inserted-some

Reaches-IsAlike_example :
    IsAlike S T P empty_list empty_list-IsMaker
      (lexicon_of inserted)
      (trie_of inserted)
      (insert_plain S P empty_list P.empty york_token).0
Reaches-IsAlike_example =
    Reaches-IsAlike S T P empty_list empty_list-IsMaker strict can_create (λ t. refl) strict-IsBelow
      glob glob-IsGlob (unfold create_positional new_positional_entry in refl) (lexicon_of inserted)
      (trie_of inserted) (insert_plain S P empty_list P.empty york_token).0 york_token-Reaches
