-- ===== src/Constrained/Lexicon/Terms/Taken.antt =====
-- The list that `RetrievePostingList` takes out of the set in memory.
use irengine.Common.{
  ℕ, ◌≡◌, refl, sym, ap, ◌∙◌, inl, inr, Bool, true, none, some, List, Text, text_eq, text_eq_iff,
  nat_key, text_key, lookup, Bool-cases,
}
use irengine.Indexer.SkipMap.{SkipMap}
use irengine.Indexer.Entry.{Entry}
use irengine.Indexer.PostingList.Valid.{IsValid}
use irengine.Constrained.PostingListSet.{PostingListSet, get_list, list_or_new}
use irengine.Constrained.PostingListSet.Consistent.{IsConsistent}
use irengine.Constrained.PostingListSet.Restored.{listed_or_new}
use irengine.Constrained.PostingListSet.Got.{got, got-view, got-IsConsistent}
use irengine.Constrained.Lexicon.{LoadTests, Container, Lexicon}
use irengine.Constrained.Lexicon.Memory.{store, retrieve_pls}
use irengine.Constrained.Lexicon.Memory.Changed.{store-IsSound, store-entries}
use irengine.Constrained.Lexicon.Memory.Kept.{entry_at, IsSound}
use irengine.Constrained.Lexicon.Memory.Settled.{kept_set}
use irengine.Constrained.Lexicon.Memory.Retrieves.{loaded_entries}
use irengine.Constrained.Lexicon.Terms.{PersistentTerm, retrieve_posting_list}

module _ (S : SkipMap Entry) where
  module _ (F : LoadTests) (can_create : Text → Bool)
      (creates : (t : Text) → can_create t ≡ true) where
    pub retrieve_posting_list-found :
        (lex lex' : Lexicon S) (t : PersistentTerm) (generated : List Text) (a : ℕ) (tag' : Text)
        (c : Container S) (pls : PostingListSet S)
        → retrieve_pls S F can_create generated lex t.text t.data_tag ≡ some (lex', a, tag')
        → lookup a lex'.containers ≡ some c
        → c.pls ≡ some pls
        → retrieve_posting_list S F can_create generated lex t
          ≡ some (
            store S lex' a (record c { pls = some (got S pls t.text) }),
            record t { data_tag = tag' },
            list_or_new S pls t.text,
          )
    unfolding get_list
    retrieve_posting_list-found lex lex' t generated a tag' c pls e at loaded =
        opened
        ∙ ap
            (λ o. elim o [
              | none ↦ none
              | some p ↦ some (
                store S lex' a (record c { pls = some (get_list S p t.text).0 }),
                record t { data_tag = tag' },
                (get_list S p t.text).1,
              )
            ])
            loaded
      where
        opened : retrieve_posting_list S F can_create generated lex t ≡ elim c.pls [
          | none ↦ none
          | some p ↦ some (
            store S lex' a (record c { pls = some (get_list S p t.text).0 }),
            record t { data_tag = tag' },
            (get_list S p t.text).1,
          )
        ]
        opened = unfold retrieve_posting_list in rw (e, at, retrieve_posting_list) refl

    -- A set in memory from which the list is taken
    module _ (lex : Lexicon S) (s : IsSound S lex) (a : ℕ) (tag : Text) (c : Container S)
        (pls : PostingListSet S) (here : lookup tag lex.pl_set_cache ≡ some a)
        (at : lookup a lex.containers ≡ some c) (loaded : c.pls ≡ some pls) (text : Text) where
      abbrev pub taken : Lexicon S
      taken = store S lex a (record c { pls = some (got S pls text) })

      kept : IsConsistent S lex.pl_init pls × (c.size ≡ pls.size)
      kept = kept_set S F can_create creates lex s tag a c here at pls loaded

      got_kept : IsConsistent S lex.pl_init (got S pls text) × (c.size ≡ pls.size)
      got_kept = (got-IsConsistent S lex.pl_init pls text s.maker kept.0, kept.1)

      tag_here : lookup c.tag lex.pl_set_cache ≡ some a
      tag_here = s.owned a c at

      pub taken-IsSound : IsSound S taken
      taken-IsSound =
          store-IsSound S lex s a c (record c { pls = some (got S pls text) }) (got S pls text) at
            tag_here refl refl got_kept

      pub taken-entries : (y x : Text) (d : ℕ) → entry_at S taken y x d ≡ entry_at S lex y x d
      taken-entries y x d =
          store-entries S lex s a c (record c { pls = some (got S pls text) }) (got S pls text) at
            tag_here refl refl got_kept y x d
          ∙ elim (Bool-cases (text_eq c.tag y)) [
            | inr other ↦ rw other refl
            | inl same ↦ rw same (
                got-view S pls text x d
                ∙ loaded_entries S lex a y x d pls
                    (ap (λ o. elim o [ none ↦ none | some k ↦ k.pls ]) at ∙ loaded)
                    (ap (λ z. lookup z lex.pl_set_cache) (sym ((text_eq_iff c.tag y).0 same))
                      ∙ tag_here))
          ]

      pub taken-IsValid : IsValid S (list_or_new S pls text)
      taken-IsValid = (listed_or_new S lex.pl_init pls text s.maker kept.0).0
