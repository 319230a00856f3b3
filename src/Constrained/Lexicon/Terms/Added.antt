-- ===== src/Constrained/Lexicon/Terms/Added.antt =====
-- What a registered token changes of the trie and its entries.
use irengine.Common.{
  ℕ, ◌+◌, ◌==◌, ==_iff, ◌≡◌, refl, sym, ap, ◌∙◌, inl, inr, if◌then◌else◌, ◌&&◌, Option, some, Text,
  text_eq, text_eq_iff, Bool-cases,
}
use irengine.FileReader.Token.{Token}
use irengine.Indexer.SkipMap.{SkipMap}
use irengine.Indexer.Entry.{Entry}
use irengine.Indexer.TermMap.{TermMap}
use irengine.Indexer.PostingList.Inserted.{added_to}
use irengine.Constrained.Lexicon.{Lexicon}
use irengine.Constrained.Lexicon.Memory.Keeps.{Keeps}
use irengine.Constrained.Lexicon.Memory.Kept.{entry_at, IsSound}
use irengine.Constrained.Lexicon.Memory.Split.{IsElsewhere}
use irengine.Constrained.Lexicon.Memory.Retrieves.{HasMoved}
use irengine.Constrained.Lexicon.Terms.{PersistentTerm}
use irengine.Constrained.Lexicon.Terms.Entries.{entry_of, tf_of, IsIndexed, Inserts}
use irengine.Constrained.Lexicon.Terms.Placed.{tf_of-placed, entry_of-placed, placed-IsIndexed}

module _ (S : SkipMap Entry) (T : TermMap PersistentTerm) where
  open T use {Trie, insert_key}

  -- A term that registers a token, as it was in the trie or new.
  module _ (lex : Lexicon S) (trie : Trie) (token : Token) (generated : Text)
      (indexed : IsIndexed S T lex trie) (t : PersistentTerm) (text : t.text ≡ token.text)
      (tf : t.tf ≡ tf_of S T trie token.text)
      (same : (d : ℕ) → entry_of S T lex trie token.text d ≡ entry_at S lex t.data_tag token.text d)
      (only : (tag : Text) (d : ℕ) (e : Entry)
        → entry_at S lex tag token.text d ≡ some e
        → t.data_tag ≡ tag)
      (lex' : Lexicon S) (t' : PersistentTerm) (text' : t'.text ≡ token.text)
      (tf' : t'.tf ≡ t.tf + 1) (moved : HasMoved S lex' token.text t.data_tag t'.data_tag generated)
      (own : (d : ℕ)
        → entry_at S lex' t'.data_tag token.text d ≡ (
            if token.doc_id == d
            then some (
                added_to lex.pl_init.is_positional token
                  (entry_at S lex t.data_tag token.text token.doc_id))
            else entry_at S lex t.data_tag token.text d))
      (others : (y x : Text) (d : ℕ)
        → IsElsewhere t.data_tag t'.data_tag token.text y x
        → entry_at S lex' y x d ≡ entry_at S lex y x d) where
    abbrev added : Entry
    added = added_to lex.pl_init.is_positional token (entry_of S T lex trie token.text token.doc_id)

    abbrev own_entry : ℕ → Option Entry
    own_entry d = if token.doc_id == d then some added else entry_of S T lex trie token.text d

    own_after : (d : ℕ) → entry_at S lex' t'.data_tag token.text d ≡ own_entry d
    own_after d =
        own d
        ∙ ap
            (λ o.
              if token.doc_id == d
              then some (added_to lex.pl_init.is_positional token o)
              else entry_at S lex t.data_tag token.text d)
            (sym (same token.doc_id))
        ∙ ap (λ o. if token.doc_id == d then some added else o) (sym (same d))

    added-IsIndexed : IsIndexed S T lex' (insert_key token.text t' trie)
    added-IsIndexed =
        placed-IsIndexed S T lex lex' trie token.text t.data_tag generated indexed t' text' only
          moved own_entry own_after others token.doc_id added
          (rw ((==_iff token.doc_id token.doc_id).1 refl) refl)

    tf_after :
        (x : Text)
        → tf_of S T (insert_key token.text t' trie) x
          ≡ (if text_eq token.text x then tf_of S T trie x + 1 else tf_of S T trie x)
    tf_after x =
        tf_of-placed S T lex lex' trie token.text t.data_tag generated indexed t' text' only moved
          own_entry own_after others x
        ∙ elim (Bool-cases (text_eq token.text x)) [
          | inr other ↦ rw other refl
          | inl hit ↦
              rw hit (
                tf' ∙ ap (λ n. n + 1) (tf ∙ ap (tf_of S T trie) ((text_eq_iff token.text x).0 hit)))
        ]

    entries_after :
        (x : Text) (d : ℕ)
        → entry_of S T lex' (insert_key token.text t' trie) x d ≡ (
            if text_eq token.text x && token.doc_id == d
            then some added
            else entry_of S T lex trie x d)
    entries_after x d =
        entry_of-placed S T lex lex' trie token.text t.data_tag generated indexed t' text' only
          moved own_entry own_after others x d
        ∙ elim (Bool-cases (text_eq token.text x)) [
          | inr other ↦ rw other refl
          | inl hit ↦ rw hit (
              ap (λ y. if token.doc_id == d then some added else entry_of S T lex trie y d)
                ((text_eq_iff token.text x).0 hit))
        ]

    pub after-Inserts :
        IsSound S lex'
        → Keeps S lex lex'
        → {o : Option (Lexicon S × Trie)} → o ≡ some (lex', insert_key token.text t' trie)
        → Inserts S T lex trie token o
    after-Inserts s keeps runs = (
      lex',
      insert_key token.text t' trie,
      runs,
      (s, added-IsIndexed, keeps),
      tf_after,
      entries_after,
    )
