-- ===== src/Constrained/Lexicon/Terms/Queried.antt =====
-- `RetrievePostingList`: the posting list of a term, wherever it is kept.
use irengine.Common.{
  some-injective, ℕ, ◌≡◌, refl, sym, ap, subst, ◌∙◌, inl, inr, Bool, true, Option, none, some, List,
  ◌∷◌, Text, text_eq, text_eq_iff, nat_key, text_key, lookup, Bool-cases,
}
use irengine.Indexer.SkipMap.{SkipMap}
use irengine.Indexer.Entry.{Entry}
use irengine.Indexer.TermMap.{TermMap}
use irengine.Indexer.PostingList.{PostingList, get_entry}
use irengine.Indexer.PostingList.Valid.{IsValid}
use irengine.Constrained.PostingListSet.{PostingListSet, list_or_new}
use irengine.Constrained.PostingListSet.Reload.{view}
use irengine.Constrained.Lexicon.{LoadTests, Container, Lexicon}
use irengine.Constrained.Lexicon.Memory.{retrieve_pls}
use irengine.Constrained.Lexicon.Memory.Keeps.{Keeps, Keeps-trans}
use irengine.Constrained.Lexicon.Memory.Kept.{entry_at, IsSound}
use irengine.Constrained.Lexicon.Memory.Split.{IsElsewhere}
use irengine.Constrained.Lexicon.Memory.Retrieves.{HasMoved, loaded_entries}
use irengine.Constrained.Lexicon.Memory.Retrieved.{retrieve_pls_lem}
use irengine.Constrained.Lexicon.Terms.{PersistentTerm, retrieve_posting_list}
use irengine.Constrained.Lexicon.Terms.Entries.{entry_of, tf_of, IsIndexed, entry-HasList}
use irengine.Constrained.Lexicon.Terms.Placed.{tf_of-placed, entry_of-placed, placed-IsIndexed}
use irengine.Constrained.Lexicon.Terms.Taken.{
  taken, taken-IsSound, taken-entries, taken-IsValid, retrieve_posting_list-found,
}

module _ (S : SkipMap Entry) (T : TermMap PersistentTerm) where
  open T use {Trie, find, insert_key}

  -- The result of `RetrievePostingList`: the list has the entries of the text, and no entry or count
  -- changes.
  abbrev pub Queries :
      Lexicon S → Trie → Text → Option (Lexicon S × PersistentTerm × PostingList S) → Type 0
  Queries lex trie x o =
      (lex' : Lexicon S) × (t' : PersistentTerm) × (pl : PostingList S) × (o ≡ some (lex', t', pl))
      × (IsSound S lex' × IsIndexed S T lex' (insert_key x t' trie) × Keeps S lex lex')
      × (IsValid S pl × ((d : ℕ) → get_entry S pl d ≡ entry_of S T lex trie x d))
      × ((y : Text) → tf_of S T (insert_key x t' trie) y ≡ tf_of S T trie y)
      × ((y : Text) (d : ℕ)
          → entry_of S T lex' (insert_key x t' trie) y d ≡ entry_of S T lex trie y d)

  module _ (F : LoadTests) (can_create : Text → Bool)
      (creates : (t : Text) → can_create t ≡ true) where
    -- The set of the term is in memory.
    module _ (lex lex' : Lexicon S) (trie : Trie) (t : PersistentTerm) (generated : Text)
        (more : List Text) (indexed : IsIndexed S T lex trie) (at_t : find t.text trie ≡ some t)
        (a : ℕ) (tag' : Text) (pls : PostingListSet S) (c : Container S)
        (runs : retrieve_pls S F can_create (generated ∷ more) lex t.text t.data_tag
          ≡ some (lex', a, tag'))
        (moved : HasMoved S lex' t.text t.data_tag tag' generated)
        (at : lookup a lex'.containers ≡ some c) (loaded : c.pls ≡ some pls)
        (here : lookup tag' lex'.pl_set_cache ≡ some a) (s' : IsSound S lex')
        (keeps : Keeps S lex lex')
        (own : (d : ℕ) → view S pls t.text d ≡ entry_at S lex t.data_tag t.text d)
        (others : (y x : Text) (d : ℕ)
          → IsElsewhere t.data_tag tag' t.text y x
          → entry_at S lex' y x d ≡ entry_at S lex y x d) where
      abbrev final : Lexicon S
      final = taken S F can_create creates lex' s' a tag' c pls here at loaded t.text

      abbrev t' : PersistentTerm
      t' = record t { data_tag = tag' }

      same_entries : (y x : Text) (d : ℕ) → entry_at S final y x d ≡ entry_at S lex' y x d
      same_entries = taken-entries S F can_create creates lex' s' a tag' c pls here at loaded t.text

      before : (d : ℕ) → entry_of S T lex trie t.text d ≡ entry_at S lex t.data_tag t.text d
      before d = ap (λ o. elim o [ none ↦ none | some k ↦ entry_at S lex k.data_tag t.text d ]) at_t

      listed : (d : ℕ) → view S pls t.text d ≡ entry_of S T lex trie t.text d
      listed d = own d ∙ sym (before d)

      own_after : (d : ℕ) → entry_at S final tag' t.text d ≡ entry_of S T lex trie t.text d
      own_after d =
          same_entries tag' t.text d
          ∙ sym (
              loaded_entries S lex' a tag' t.text d pls
                (ap (λ o. elim o [ none ↦ none | some k ↦ k.pls ]) at ∙ loaded) here)
          ∙ listed d

      others_after :
          (y x : Text) (d : ℕ)
          → IsElsewhere t.data_tag tag' t.text y x
          → entry_at S final y x d ≡ entry_at S lex y x d
      others_after y x d elsewhere = same_entries y x d ∙ others y x d elsewhere

      moved_after : HasMoved S final t.text t.data_tag tag' generated
      moved_after = elim moved [
        | inl stays ↦ inl stays
        | inr (fresh, differs, gone) ↦
            inr (fresh, differs, λ d. same_entries t.data_tag t.text d ∙ gone d)
      ]

      only : (y : Text) (d : ℕ) (e : Entry) → entry_at S lex y t.text d ≡ some e → t.data_tag ≡ y
      only y d e h =
          let (k, at_k, tagged) = indexed.known y t.text d e h in
          ap (λ (j : PersistentTerm). j.data_tag) (some-injective (sym at_t ∙ at_k)) ∙ tagged

      same_tf : (y : Text) → tf_of S T (insert_key t.text t' trie) y ≡ tf_of S T trie y
      same_tf y =
          tf_of-placed S T lex final trie t.text t.data_tag generated indexed t' refl only
            moved_after (entry_of S T lex trie t.text) own_after others_after y
          ∙ elim (Bool-cases (text_eq t.text y)) [
            | inr other ↦ rw other refl
            | inl hit ↦ rw hit (
                sym (
                  ap (tf_of S T trie) (sym ((text_eq_iff t.text y).0 hit))
                  ∙ ap (λ o. elim o [ none ↦ 0 | some k ↦ k.tf ]) at_t))
          ]

      same_terms :
          (y : Text) (d : ℕ)
          → entry_of S T final (insert_key t.text t' trie) y d ≡ entry_of S T lex trie y d
      same_terms y d =
          entry_of-placed S T lex final trie t.text t.data_tag generated indexed t' refl only
            moved_after (entry_of S T lex trie t.text) own_after others_after y d
          ∙ elim (Bool-cases (text_eq t.text y)) [
            | inr other ↦ rw other refl
            | inl hit ↦ rw hit (ap (λ z. entry_of S T lex trie z d) ((text_eq_iff t.text y).0 hit))
          ]

      found-Queries :
          (k : ℕ) (u : Entry)
          → entry_at S lex t.data_tag t.text k ≡ some u
          → Queries lex trie t.text (retrieve_posting_list S F can_create (generated ∷ more) lex t)
      found-Queries k u entry = (
        final,
        t',
        list_or_new S pls t.text,
        retrieve_posting_list-found S F can_create creates lex lex' t (generated ∷ more) a tag' c
            pls runs at loaded,
        (
          taken-IsSound S F can_create creates lex' s' a tag' c pls here at loaded t.text,
          placed-IsIndexed S T lex final trie t.text t.data_tag generated indexed t' refl only
              moved_after (entry_of S T lex trie t.text) own_after others_after k u
              (before k ∙ entry),
          Keeps-trans S lex lex' final keeps (refl, refl, λ z h. (h, refl)),
        ),
        (taken-IsValid S F can_create creates lex' s' a tag' c pls here at loaded t.text, listed),
        same_tf,
        same_terms,
      )

    -- `RetrievePostingList` of a term in the trie of a sound lexicon, with one new tag at hand, does not
    -- panic, though the set of the term may have to be read from disk or to be split. The list that it
    -- returns is valid and has exactly the entries of the term's text. No text has another count or entry
    -- than before. The lexicon stays sound, and its entries stay those of the terms in the trie. Files can be
    -- created, and the new tag is not in use.
    pub retrieve_posting_list_lem :
        (lex : Lexicon S) (trie : Trie) (x generated : Text) (more : List Text) (t : PersistentTerm)
        → IsSound S lex
        → IsIndexed S T lex trie
        → find x trie ≡ some t
        → lookup generated lex.pl_set_cache ≡ none
        → Queries lex trie x (retrieve_posting_list S F can_create (generated ∷ more) lex t)
    retrieve_posting_list_lem lex trie x generated more t s indexed at_x new =
        let (text, held) = indexed.held x t at_x in
        let (k, u, entry) = held in
        let at_t : find t.text trie ≡ some t = ap (λ y. find y trie) text ∙ at_x in
        let entry' : entry_at S lex t.data_tag t.text k ≡ some u =
          ap (λ y. entry_at S lex t.data_tag y k) text ∙ entry in
        let (lex', a, tag', pls, e, moved, in_memory, here, s', keeps, own, others) =
          retrieve_pls_lem S F can_create creates lex t.text t.data_tag generated more s new
            (entry-HasList S T lex t.text t.data_tag k u s entry') in
        let (c, at, tagged, kept') = s'.cached tag' a here in
        let loaded : c.pls ≡ some pls =
          sym (ap (λ o. elim o [ none ↦ none | some j ↦ j.pls ]) at) ∙ in_memory in
        subst
          (λ y. Queries lex trie y (retrieve_posting_list S F can_create (generated ∷ more) lex t))
          text
          (found-Queries lex lex' trie t generated more indexed at_t a tag' pls c e moved at loaded
            here s' keeps own others k u entry')
