-- ===== src/Constrained/Lexicon/Terms/Placed.antt =====
-- A term that takes the place of the one under its text.
use irengine.Common.{
  none-some, some-injective, true-false, ℕ, ◌≡◌, ◌≢◌, refl, sym, ap, subst, ◌∙◌, inl, inr,
  if◌then◌else◌, false, Option, none, some, arith, Text, text_eq, text_eq_iff, Bool-cases,
  Option-cases,
}
use irengine.Indexer.SkipMap.{SkipMap}
use irengine.Indexer.Entry.{Entry}
use irengine.Indexer.TermMap.{TermMap}
use irengine.Constrained.Lexicon.{Lexicon}
use irengine.Constrained.Lexicon.Memory.Kept.{entry_at}
use irengine.Constrained.Lexicon.Memory.Split.{IsElsewhere}
use irengine.Constrained.Lexicon.Memory.Retrieves.{HasMoved}
use irengine.Constrained.Lexicon.Terms.{PersistentTerm}
use irengine.Constrained.Lexicon.Terms.Entries.{entry_of, tf_of, IsIndexed}

module _ (S : SkipMap Entry) (T : TermMap PersistentTerm) where
  open T use {Trie, find, insert_key, find-insert_key}

  -- The term has the entries `own`, at least one, and no other term has another entry than before.
  module _ (lex lex' : Lexicon S) (trie : Trie) (text tag generated : Text)
      (indexed : IsIndexed S T lex trie) (t' : PersistentTerm) (text' : t'.text ≡ text)
      (only : (y : Text) (d : ℕ) (e : Entry) → entry_at S lex y text d ≡ some e → tag ≡ y)
      (moved : HasMoved S lex' text tag t'.data_tag generated) (f : ℕ → Option Entry)
      (own : (d : ℕ) → entry_at S lex' t'.data_tag text d ≡ f d)
      (others : (y x : Text) (d : ℕ)
        → IsElsewhere tag t'.data_tag text y x
        → entry_at S lex' y x d ≡ entry_at S lex y x d) where
    trie' : Trie
    trie' = insert_key text t' trie

    found : (x : Text) → find x trie' ≡ (if text_eq text x then some t' else find x trie)
    unfolding trie'
    found x = find-insert_key text x t' trie

    apart_texts : (y z : Text) → text_eq y z ≡ false → z ≢ y
    apart_texts y z h e = true-false (sym ((text_eq_iff y z).1 (sym e)) ∙ h)

    pub tf_of-placed :
        (x : Text)
        → tf_of S T (insert_key text t' trie) x
          ≡ (if text_eq text x then t'.tf else tf_of S T trie x)
    unfolding trie'
    tf_of-placed x =
        ap (λ o. elim o [ none ↦ 0 | some k ↦ k.tf ]) (found x)
        ∙ elim (Bool-cases (text_eq text x)) [ inl hit ↦ rw hit refl | inr other ↦ rw other refl ]

    pub entry_of-placed :
        (x : Text) (d : ℕ)
        → entry_of S T lex' (insert_key text t' trie) x d
          ≡ (if text_eq text x then f d else entry_of S T lex trie x d)
    unfolding trie'
    entry_of-placed x d =
        ap (λ o. elim o [ none ↦ none | some k ↦ entry_at S lex' k.data_tag x d ]) (found x)
        ∙ elim (Bool-cases (text_eq text x)) [
          | inl hit ↦
              rw hit (
                ap (λ y. entry_at S lex' t'.data_tag y d) (sym ((text_eq_iff text x).0 hit))
                ∙ own d)
          | inr other ↦ rw other (unchanged (apart_texts text x other))
        ]
      where
        unchanged : x ≢ text → entry_of S T lex' trie x d ≡ entry_of S T lex trie x d
        unchanged n = elim (Option-cases (find x trie)) [
          | inl gone ↦ ground (arith, gone)
          | inr (k, at) ↦ let here = others k.data_tag x d (inl n) in ground (arith, at)
        ]

    -- An entry of the text is under the term's tag.
    tag_of : (y : Text) (d : ℕ) (e : Entry) → entry_at S lex' y text d ≡ some e → t'.data_tag ≡ y
    tag_of y d e h = elim (Bool-cases (text_eq t'.data_tag y)) [
      | inl hit ↦ (text_eq_iff t'.data_tag y).0 hit
      | inr new ↦ elim (Bool-cases (text_eq tag y)) [
        | inr old ↦
            let before =
              sym (others y text d (inr (apart_texts tag y old, apart_texts t'.data_tag y new)))
              ∙ h in
            absurd (apart_texts tag y old (sym (only y d e before)))
        | inl old ↦
            let tags = (text_eq_iff tag y).0 old in
            elim moved [
              | inl same_tag ↦ same_tag ∙ tags
              | inr (fresh, differs, gone) ↦
                  absurd (none-some (sym (gone d) ∙ ap (λ z. entry_at S lex' z text d) tags ∙ h))
            ]
      ]
    ]

    known_after :
        (y x : Text) (d : ℕ) (e : Entry)
        → entry_at S lex' y x d ≡ some e
        → (k : PersistentTerm) × (find x trie' ≡ some k) × (k.data_tag ≡ y)
    known_after y x d e h = elim (Bool-cases (text_eq text x)) [
      | inr other ↦
          let (k, at, tagged) =
            indexed.known y x d e (sym (others y x d (inl (apart_texts text x other))) ∙ h) in
          (k, found x ∙ rw other at, tagged)
      | inl hit ↦
          let h' : entry_at S lex' y text d ≡ some e =
            ap (λ z. entry_at S lex' y z d) ((text_eq_iff text x).0 hit) ∙ h in
          (t', found x ∙ rw hit refl, tag_of y d e h')
    ]

    held_after :
        (k : ℕ) (e : Entry)
        → f k ≡ some e
        → (x : Text) (j : PersistentTerm) → find x trie' ≡ some j
        → (j.text ≡ x) × ((d : ℕ) × (u : Entry) × (entry_at S lex' j.data_tag x d ≡ some u))
    held_after k e has x j h = elim (Bool-cases (text_eq text x)) [
      | inr other ↦
          let (text_of, entry) = indexed.held x j (rw other at (sym (found x) ∙ h)) in
          let (d, u, at) = entry in
          (text_of, (d, u, others j.data_tag x d (inl (apart_texts text x other)) ∙ at))
      | inl hit ↦
          let now : t' ≡ j = some-injective (rw hit at (sym (found x) ∙ h)) in
          let texts = (text_eq_iff text x).0 hit in
          subst
            (λ (i : PersistentTerm).
              (i.text ≡ x) × ((d : ℕ) × (u : Entry) × (entry_at S lex' i.data_tag x d ≡ some u)))
            now
            (
              text' ∙ texts,
              (k, e, ap (λ y. entry_at S lex' t'.data_tag y k) (sym texts) ∙ own k ∙ has),
            )
    ]

    pub placed-IsIndexed :
        (d : ℕ) (e : Entry) → f d ≡ some e → IsIndexed S T lex' (insert_key text t' trie)
    unfolding trie'
    placed-IsIndexed d e has = record { held = held_after d e has; known = known_after }
