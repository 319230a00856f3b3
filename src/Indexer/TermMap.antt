-- ===== src/Indexer/TermMap.antt =====
-- The trie of the package radix-go, which the lexicon stores its terms in. The package is not part of
-- the repository: a trie is a parameter, with what the code relies on.
use irengine.Common.{
  ◌≡◌, refl, Option, none, some, [], Text, text_eq, Dict, text_key, lookup, insert, lookup-insert,
  if◌then◌else◌,
}

pub record TermMap (V : Type 0) : Type 1 where
  pub Trie : Type 0
  pub empty : Trie
  pub find : Text → Trie → Option V
  -- `Insert` of an entry with this key, which replaces the one that is there.
  pub insert_key : Text → V → Trie → Trie
  pub find-empty : (k : Text) → find k empty ≡ none
  pub find-insert_key :
      (k j : Text) (v : V) (m : Trie)
      → find j (insert_key k v m) ≡ (if text_eq k j then some v else find j m)

-- An association list meets the laws.
abbrev pub association_list : (V : Type 0) → TermMap V
association_list V = record {
  Trie = Dict Text V;
  empty = [];
  find = lookup;
  insert_key = insert;
  find-empty = λ k. refl;
  find-insert_key = lookup-insert;
}
