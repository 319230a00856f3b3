-- ===== src/Constrained/Lexicon/Terms/Entries.antt =====
-- The entries and counts of the terms in a trie, and a term that registers a token.
use irengine.Common.{
  ℕ, ◌+◌, ◌==◌, ◌≡◌, refl, ap, subst, ◌∙◌, inl, inr, if◌then◌else◌, ◌&&◌, Option, none, some, Text,
  text_eq, nat_key, text_key, lookup, Option-cases,
}
use irengine.FileReader.Token.{Token}
use irengine.Indexer.SkipMap.{SkipMap}
use irengine.Indexer.Entry.{Entry}
use irengine.Indexer.TermMap.{TermMap}
use irengine.Indexer.PostingList.{get_entry}
use irengine.Indexer.PostingList.Inserted.{added_to}
use irengine.Indexer.PostingList.Valid.{get_entry-entries}
use irengine.Constrained.Lexicon.{Container, Lexicon}
use irengine.Constrained.Lexicon.Memory.Keeps.{Keeps}
use irengine.Constrained.Lexicon.Memory.Kept.{
  contents, entry_at, IsKept, IsSound, entry_at-contents,
}
use irengine.Constrained.Lexicon.Memory.Retrieves.{HasList}
use irengine.Constrained.Lexicon.Terms.{PersistentTerm}

module _ (S : SkipMap Entry) (T : TermMap PersistentTerm) where
  open T use {Trie, find, insert_key, find-insert_key}

  -- The entry of a document for a text, and how often the text has been counted.
  abbrev pub entry_of : Lexicon S → Trie → Text → ℕ → Option Entry
  entry_of lex trie x d = elim (find x trie) [
    | none ↦ none
    | some t ↦ entry_at S lex t.data_tag x d
  ]

  abbrev pub tf_of : Trie → Text → ℕ
  tf_of trie x = elim (find x trie) [ none ↦ 0 | some t ↦ t.tf ]

  -- Each term has an entry, and each entry belongs to the term that has its tag.
  pub record IsIndexed (lex : Lexicon S) (trie : Trie) : Type 0 where
    pub held :
        (x : Text) (t : PersistentTerm)
        → find x trie ≡ some t
        → (t.text ≡ x) × ((d : ℕ) × (e : Entry) × (entry_at S lex t.data_tag x d ≡ some e))
    pub known :
        (tag x : Text) (d : ℕ) (e : Entry)
        → entry_at S lex tag x d ≡ some e
        → (t : PersistentTerm) × (find x trie ≡ some t) × (t.data_tag ≡ tag)

  -- A term with an entry has its list in the set of its tag.
  pub entry-HasList :
      (lex : Lexicon S) (x tag : Text) (d : ℕ) (e : Entry)
      → IsSound S lex
      → entry_at S lex tag x d ≡ some e
      → HasList S lex x tag
  entry-HasList lex x tag d e s h a c pls here at loaded over =
      elim (Option-cases (lookup x pls.list_map)) [
        | inr found ↦ found
        | inl missing ↦
            let (c', at', tagged, k) = s.cached tag a here in
            let same : c' ≡ c = cc in
            let kept =
              subst (λ o. IsKept S lex.pl_init lex.disk c.tag c.size o) loaded
                (subst (λ (j : Container S). IsKept S lex.pl_init lex.disk j.tag j.size j.pls) same
                  k) in
            let nothing : entry_at S lex tag x d ≡ none =
              entry_at-contents S lex tag x d a c here at
              ∙ ap (λ o. contents S lex.pl_init lex.disk c.tag o x d) loaded
              ∙ ap (λ o. get_entry S (elim o [ none ↦ pls.pl_init | some q ↦ q ]) d) missing
              ∙ ap (λ i. get_entry S i d) kept.0.made
              ∙ get_entry-entries S lex.pl_init d
              ∙ rw s.maker.bare refl in
            absurd (cc)
      ]

  -- The result of `InsertToken`: the text counts the token, its entry of the token's document gets the
  -- position, and no other entry or count changes.
  abbrev pub Inserts : Lexicon S → Trie → Token → Option (Lexicon S × Trie) → Type 0
  Inserts lex trie token o =
      (lex' : Lexicon S) × (trie' : Trie) × (o ≡ some (lex', trie'))
      × (IsSound S lex' × IsIndexed lex' trie' × Keeps S lex lex')
      × ((x : Text)
          → tf_of trie' x ≡ (if text_eq token.text x then tf_of trie x + 1 else tf_of trie x))
      × ((x : Text) (d : ℕ)
          → entry_of lex' trie' x d ≡ (
              if text_eq token.text x && token.doc_id == d
              then some (
                  added_to lex.pl_init.is_positional token
                    (entry_of lex trie token.text token.doc_id))
              else entry_of lex trie x d))
