-- ===== src/Constrained/Lexicon/History.antt =====
-- The lexicon of bounded memory over its whole life, beside the lexicon that keeps its lists in memory:
-- tokens come in, posting lists are read, the worker runs, and the lexicon is saved and loaded.
pub mod Plain
pub mod Steps
pub mod Alike
use irengine.Common.{
  ℕ, ◌<◌, ◌^◌, ◌≡◌, Bool, true, false, Option, none, some, List, ◌∷◌, ℤ, Text, Dict, text_key,
  lookup, length,
}
use irengine.FileReader.Token.{Token, null_token, type_eq}
use irengine.Indexer.SkipMap.{SkipMap}
use irengine.Indexer.Entry.{Entry}
use irengine.Indexer.TermMap.{TermMap}
use irengine.Indexer.PostingList.{PostingList}
use irengine.Indexer.PostingList.Inserted.{added_to}
use irengine.Indexer.Lexicon.{Term, insert_token as insert_plain}
use irengine.Constrained.PostingListSet.RoundTrip.{IsDumpable}
use irengine.Constrained.Lexicon.{LoadTests, Lexicon, new_lexicon, swapped_worker}
use irengine.Constrained.Lexicon.Metadata.RoundTrip.{IsInt64}
use irengine.Constrained.Lexicon.Terms.{PersistentTerm, insert_token, retrieve_posting_list}
use irengine.Constrained.Lexicon.Terms.Entries.{entry_of}
use irengine.Constrained.Lexicon.Disk.{save_to_disk, load_from_disk}

module _ (S : SkipMap Entry) (B : TermMap PersistentTerm) (P : TermMap (Term S)) (F : LoadTests)
    (can_create : Text → Bool) (glob : Dict Text Text → List Text) (create : PostingList S) where
  -- A lexicon and its trie after some steps, and the plain lexicon after the same tokens.
  pub data Reaches : Lexicon S → B.Trie → P.Trie → Type 0 where
    starts : (limit : ℤ) → IsInt64 limit → Reaches (new_lexicon S create limit) B.empty P.empty
    works :
        {lex : Lexicon S} {trie : B.Trie} {plain : P.Trie}
        → Reaches lex trie plain
        → Reaches (swapped_worker S lex) trie plain
    passes :
        {lex lex' : Lexicon S} {trie trie' : B.Trie} {plain : P.Trie} (fresh : Text)
        (generated : List Text) (token : Token)
        → Reaches lex trie plain
        → type_eq token.type null_token ≡ true
        → insert_token S F can_create B fresh generated lex trie token ≡ some (lex', trie')
        → Reaches lex' trie' (insert_plain S P create plain token).0
    inserts :
        {lex lex' : Lexicon S} {trie trie' : B.Trie} {plain : P.Trie} (fresh generated : Text)
        (more : List Text) (token : Token)
        → Reaches lex trie plain
        → type_eq token.type null_token ≡ false
        → lookup fresh lex.pl_set_cache ≡ none
        → lookup generated lex.pl_set_cache ≡ none
        → IsDumpable (create.entry_factory 0) (
          token.text,
          added_to create.is_positional token (entry_of S B lex trie token.text token.doc_id),
        )
        → insert_token S F can_create B fresh (generated ∷ more) lex trie token ≡ some (lex', trie')
        → Reaches lex' trie' (insert_plain S P create plain token).0
    queries :
        {lex lex' : Lexicon S} {trie : B.Trie} {plain : P.Trie} {t t' : PersistentTerm}
        {pl : PostingList S} (x generated : Text) (more : List Text)
        → Reaches lex trie plain
        → B.find x trie ≡ some t
        → lookup generated lex.pl_set_cache ≡ none
        → retrieve_posting_list S F can_create (generated ∷ more) lex t ≡ some (lex', t', pl)
        → Reaches lex' (B.insert_key x t' trie) plain
    reloads :
        {lex lex' : Lexicon S} {trie trie' : B.Trie} {plain : P.Trie} (saved : Lexicon S)
        (metadata : Text)
        → Reaches lex trie plain
        → length lex.pl_set_cache < 2 ^ 63
        → save_to_disk S F can_create true lex ≡ some (saved, metadata)
        → load_from_disk S F can_create B glob saved.disk (some metadata) ≡ some (lex', trie')
        → Reaches lex' trie' plain
