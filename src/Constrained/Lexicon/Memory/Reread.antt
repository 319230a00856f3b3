-- ===== src/Constrained/Lexicon/Memory/Reread.antt =====
-- A set that is read from its file into its container: the entries are the ones that were there.
use irengine.Common.{
  ℕ, ◌≡◌, refl, sym, ap, ◌∙◌, inl, inr, none, some, Text, text_eq, text_eq_iff, nat_key, text_key,
  lookup, Bool-cases,
}
use irengine.Indexer.SkipMap.{SkipMap}
use irengine.Indexer.Entry.{Entry}
use irengine.Constrained.PostingListSet.{PostingListSet, new_posting_list_set, load}
use irengine.Constrained.PostingListSet.Consistent.{IsConsistent}
use irengine.Constrained.Lexicon.{Container, Lexicon}
use irengine.Constrained.Lexicon.Memory.{store}
use irengine.Constrained.Lexicon.Memory.Kept.{contents, entry_at, IsSound, entry_at-contents}
use irengine.Constrained.Lexicon.Memory.Round.{contents-read}
use irengine.Constrained.Lexicon.Memory.Changed.{store-entries}

module _ (S : SkipMap Entry) where
  pub store-reread :
      (lex : Lexicon S) (sound : IsSound S lex) (a : ℕ) (c c' : Container S) (text : Text)
      (pls : PostingListSet S)
      → lookup a lex.containers ≡ some c
      → lookup c.tag lex.pl_set_cache ≡ some a
      → c.pls ≡ none
      → c'.tag ≡ c.tag
      → c'.pls ≡ some pls
      → lookup c.tag lex.disk ≡ some text
      → load S (new_posting_list_set S lex.pl_init) text ≡ some pls
      → IsConsistent S lex.pl_init pls × (c'.size ≡ pls.size)
      → (t x : Text) (d : ℕ) → entry_at S (store S lex a c') t x d ≡ entry_at S lex t x d
  store-reread lex sound a c c' text pls at here gone tagged loaded file reads kept t x d =
      store-entries S lex sound a c c' pls at here tagged loaded kept t x d
      ∙ elim (Bool-cases (text_eq c.tag t)) [
        | inr other ↦ rw other refl
        | inl same ↦ rw same (
            sym (contents-read S lex.pl_init lex.disk c.tag x d text pls file reads)
            ∙ sym (ap (λ o. contents S lex.pl_init lex.disk c.tag o x d) gone)
            ∙ sym (
                entry_at-contents S lex t x d a c
                  (ap (λ y. lookup y lex.pl_set_cache) (sym ((text_eq_iff c.tag t).0 same)) ∙ here)
                  at))
      ]
