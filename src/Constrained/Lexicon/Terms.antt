-- ===== src/Constrained/Lexicon/Terms.antt =====
-- The terms of the lexicon: `persistent_term`, `NewTerm`, `Register`, `IncrementPLSSize` and
-- `RetrievePostingList` of indexer/constrained/lexicon.go, and `InsertToken` with them.
pub mod RegisterAt
pub mod Registered
pub mod Chosen
pub mod Entries
pub mod Placed
pub mod Added
pub mod Indexed
pub mod Taken
pub mod Queried
pub mod Fresh
use irengine.Common.{
  ℕ, ◌+◌, if◌then◌else◌, Bool, true, false, Option, none, some, List, [], ◌∷◌, ◌++◌, pos, ◌+ℤ◌,
  Text, Dict, nat_key, text_key, lookup, insert,
}
use irengine.FileReader.Token.{Token, null_token, type_eq}
use irengine.Indexer.SkipMap.{SkipMap}
use irengine.Indexer.Entry.{Entry}
use irengine.Indexer.TermMap.{TermMap}
use irengine.Indexer.PostingList.{PostingList, insert_entry}
use irengine.Constrained.PostingListSet.{PostingListSet, get_list}
use irengine.Constrained.Lexicon.{LoadTests, Container, Lexicon, least_used_pls}
use irengine.Constrained.Lexicon.Memory.{store, retrieve_pls}

-- `persistent_term`, whose list of its own stays nil.
pub record PersistentTerm : Type 0 where
  pub text : Text
  pub tf : ℕ
  pub data_tag : Text

module _ (S : SkipMap Entry) where
  -- `IncrementPLSSize`
  unfoldable pub increment_pls_size : Lexicon S → Text → Lexicon S
  increment_pls_size lex tag = elim (lookup tag lex.pl_set_cache) [
    | none ↦ lex
    | some a ↦ elim (lookup a lex.containers) [
      | none ↦ lex
      | some c ↦ store S lex a (record c { size = c.size + 1 })
    ]
  ]

  -- The set with the term's list behind `InsertEntry`, and whether an entry is new.
  unfoldable pub insert_into : PostingListSet S → Text → Token → PostingListSet S × Bool
  unfolding get_list
  insert_into pls text token =
      let (pls', pl) = get_list S pls text in
      let (pl', added) = insert_entry S pl token in
      (
        record pls' {
          list_map = insert text pl' pls'.list_map;
          size = if added then pls'.size + 1 else pls'.size;
        },
        added,
      )

  -- The part of `Register` behind `RetrievePLS`
  unfoldable pub register_at :
      Lexicon S → ℕ → Container S → PostingListSet S → Text → Token → Lexicon S
  register_at lex a c pls text token =
      let (pls', added) = insert_into pls text token in
      let lex' = store S lex a (record c { pls = some pls' }) in
      let counted = record (increment_pls_size lex' c.tag) {
        current_load = lex.current_load +ℤ pos 1;
      } in
      if added then counted else lex'

  module _ (F : LoadTests) (can_create : Text → Bool) where
    -- `Register`, with the tags that `generateTag` would make; `none` is a panic.
    unfoldable pub register :
        (List Text → Lexicon S → PersistentTerm → Token → Option (Lexicon S × PersistentTerm))
    unfolding register_at
    register generated lex t token =
        elim (retrieve_pls S F can_create generated lex t.text t.data_tag) [
          | none ↦ none
          | some (lex', a, tag') ↦ elim (lookup a lex'.containers) [
            | none ↦ none
            | some c ↦ elim c.pls [
              | none ↦ none
              | some pls ↦ some (
                register_at lex' a c pls t.text token,
                record t { tf = t.tf + 1; data_tag = tag' },
              )
            ]
          ]
        ]

    -- `NewTerm`
    unfoldable pub new_term :
        (List Text → Lexicon S → Token → Text → Option (Lexicon S × PersistentTerm))
    unfolding register
    new_term generated lex tok tag =
        register generated lex (record { text = tok.text; tf = 0; data_tag = tag }) tok

    -- `RetrievePostingList`
    unfoldable pub retrieve_posting_list :
        (List Text
          → Lexicon S
          → PersistentTerm
          → Option (Lexicon S × PersistentTerm × PostingList S))
    unfolding get_list
    retrieve_posting_list generated lex t =
        elim (retrieve_pls S F can_create generated lex t.text t.data_tag) [
          | none ↦ none
          | some (lex', a, tag') ↦ elim (lookup a lex'.containers) [
            | none ↦ none
            | some c ↦ elim c.pls [
              | none ↦ none
              | some pls ↦
                  let (pls', pl) = get_list S pls t.text in
                  some (
                    store S lex' a (record c { pls = some pls' }),
                    record t { data_tag = tag' },
                    pl,
                  )
            ]
          ]
        ]

    module _ (T : TermMap PersistentTerm) where
      open T use {Trie, find, insert_key}

      -- `InsertToken` with the `TermInit` of `NewLexicon`, which has `LeastUsedPLS` choose the tag. The first
      -- text is the tag that `generateTag` would make there.
      unfoldable pub insert_token :
          (Text → List Text → Lexicon S → Trie → Token → Option (Lexicon S × Trie))
      insert_token fresh generated lex trie token =
          if type_eq token.type null_token then some (lex, trie) else elim (find token.text trie) [
            | some term ↦ elim (register generated lex term token) [
              | none ↦ none
              | some (lex', term') ↦ some (lex', insert_key token.text term' trie)
            ]
            | none ↦ elim (new_term generated lex token (least_used_pls S F lex fresh)) [
              | none ↦ none
              | some (lex', term') ↦ some (lex', insert_key term'.text term' trie)
            ]
          ]
