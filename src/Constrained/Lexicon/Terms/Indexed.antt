-- ===== src/Constrained/Lexicon/Terms/Indexed.antt =====
-- `InsertToken`: the lexicon of bounded memory against one that keeps all entries.
use irengine.Common.{
  ℕ, ◌==◌, ◌≡◌, refl, sym, ap, subst, ◌∙◌, inl, inr, if◌then◌else◌, Bool, true, false, Option, none,
  some, List, ◌∷◌, arith, Text, nat_key, text_key, lookup, Option-cases,
}
use irengine.FileReader.Token.{Token, null_token, type_eq}
use irengine.Indexer.SkipMap.{SkipMap}
use irengine.Indexer.Entry.{Entry}
use irengine.Indexer.TermMap.{TermMap}
use irengine.Indexer.PostingList.Inserted.{added_to}
use irengine.Constrained.PostingListSet.RoundTrip.{IsDumpable}
use irengine.Constrained.Lexicon.{LoadTests, Lexicon, least_used_pls}
use irengine.Constrained.Lexicon.Memory.Kept.{entry_at, IsSound}
use irengine.Constrained.Lexicon.Memory.Split.{IsElsewhere}
use irengine.Constrained.Lexicon.Memory.Retrieves.{HasList, HasMoved}
use irengine.Constrained.Lexicon.Terms.{PersistentTerm, register, new_term, insert_token}
use irengine.Constrained.Lexicon.Terms.Chosen.{IsBelow, least_used_pls-HasList}
use irengine.Constrained.Lexicon.Terms.Registered.{register_lem}
use irengine.Constrained.Lexicon.Terms.Entries.{entry_of, tf_of, IsIndexed, entry-HasList, Inserts}
use irengine.Constrained.Lexicon.Terms.Added.{after-Inserts}

module _ (S : SkipMap Entry) (T : TermMap PersistentTerm) where
  open T use {Trie, find, insert_key}

  module _ (F : LoadTests) (can_create : Text → Bool)
      (creates : (t : Text) → can_create t ≡ true) where
    module _ (laws : IsBelow F) where
      insert_token-found :
          (lex lex' : Lexicon S) (trie : Trie) (token : Token) (fresh : Text)
          (generated : List Text) (t t' : PersistentTerm)
          → type_eq token.type null_token ≡ false
          → find token.text trie ≡ some t
          → register S F can_create generated lex t token ≡ some (lex', t')
          → insert_token S F can_create T fresh generated lex trie token
            ≡ some (lex', insert_key token.text t' trie)
      unfolding insert_token
      insert_token-found lex lex' trie token fresh generated t t' word at runs =
          rw (word, at, runs, insert_token) refl

      insert_token-new :
          (lex lex' : Lexicon S) (trie : Trie) (token : Token) (fresh : Text)
          (generated : List Text) (t' : PersistentTerm)
          → type_eq token.type null_token ≡ false
          → find token.text trie ≡ none
          → new_term S F can_create generated lex token (least_used_pls S F lex fresh)
            ≡ some (lex', t')
          → insert_token S F can_create T fresh generated lex trie token
            ≡ some (lex', insert_key t'.text t' trie)
      unfolding insert_token
      insert_token-new lex lex' trie token fresh generated t' word absent runs =
          rw (word, absent, runs, insert_token) refl

      -- The trie and the entries stand for an index that keeps all in memory. `InsertToken` of a token
      -- that is not null does not panic: of the token's text it counts one more, and the entry of the token's
      -- document gets the position, or is a new one with it. No other text has another count or entry, in
      -- memory or on disk. The lexicon stays sound, and its entries stay those of the terms in the trie. The new
      -- tags are not in use, files can be created, a line can hold the changed entry, and the tests on
      -- sizes take no size above the limit.
      pub insert_token_lem :
          (lex : Lexicon S) (trie : Trie) (token : Token) (fresh generated : Text)
          (more : List Text)
          → IsSound S lex
          → IsIndexed S T lex trie
          → type_eq token.type null_token ≡ false
          → lookup fresh lex.pl_set_cache ≡ none
          → lookup generated lex.pl_set_cache ≡ none
          → IsDumpable (lex.pl_init.entry_factory 0) (
            token.text,
            added_to lex.pl_init.is_positional token
                (entry_of S T lex trie token.text token.doc_id),
          )
          → Inserts S T lex trie token
              (insert_token S F can_create T fresh (generated ∷ more) lex trie token)
      insert_token_lem lex trie token fresh generated more s indexed word new_fresh new line =
          elim (Option-cases (find token.text trie)) [
            | inr (t, at) ↦ old_term t at
            | inl absent ↦ first_token absent
          ]
        where
          joined :
              (t : PersistentTerm)
              → t.text ≡ token.text
              → t.tf ≡ tf_of S T trie token.text
              → ((d : ℕ)
                  → entry_of S T lex trie token.text d ≡ entry_at S lex t.data_tag token.text d)
              → ((tag : Text) (d : ℕ) (e : Entry)
                  → entry_at S lex tag token.text d ≡ some e
                  → t.data_tag ≡ tag)
              → HasList S lex token.text t.data_tag
              → ((lex' : Lexicon S) (t' : PersistentTerm)
                  → t'.text ≡ token.text
                  → register S F can_create (generated ∷ more) lex t token ≡ some (lex', t')
                  → insert_token S F can_create T fresh (generated ∷ more) lex trie token
                    ≡ some (lex', insert_key token.text t' trie))
              → Inserts S T lex trie token
                  (insert_token S F can_create T fresh (generated ∷ more) lex trie token)
          joined t text tf same only has runs =
              let line' =
                subst
                  (λ y. IsDumpable (lex.pl_init.entry_factory 0) (
                    y,
                    added_to lex.pl_init.is_positional token
                        (entry_at S lex t.data_tag y token.doc_id),
                  ))
                  (sym text)
                  (subst
                    (λ o.
                      IsDumpable (lex.pl_init.entry_factory 0)
                        (token.text, added_to lex.pl_init.is_positional token o))
                    (same token.doc_id) line) in
              let has' = subst (λ y. HasList S lex y t.data_tag) (sym text) has in
              let (lex', t', e, (text', tf'), moved, init, s', own, others) =
                register_lem S F can_create creates lex t generated more token s new has' line' in
              after-Inserts S T lex trie token generated indexed t text tf same only lex' t'
                (text' ∙ text) tf'
                (subst (λ y. HasMoved S lex' y t.data_tag t'.data_tag generated) text moved)
                (subst
                  (λ y.
                    (d : ℕ)
                    → entry_at S lex' t'.data_tag y d ≡ (
                        if token.doc_id == d
                        then some (
                            added_to lex.pl_init.is_positional token
                              (entry_at S lex t.data_tag y token.doc_id))
                        else entry_at S lex t.data_tag y d))
                  text own)
                (subst
                  (λ z.
                    (y x : Text) (d : ℕ)
                    → IsElsewhere t.data_tag t'.data_tag z y x
                    → entry_at S lex' y x d ≡ entry_at S lex y x d)
                  text others)
                s' init (runs lex' t' (text' ∙ text) e)

          old_term :
              (t : PersistentTerm)
              → find token.text trie ≡ some t
              → Inserts S T lex trie token
                  (insert_token S F can_create T fresh (generated ∷ more) lex trie token)
          old_term t at =
              let (text, held) = indexed.held token.text t at in
              joined t text (ground (arith, at)) (λ d. ground (arith, at))
                (λ tag d e h. only (indexed.known tag token.text d e h))
                (entry-HasList S T lex token.text t.data_tag held.0 held.1 s held.2)
                (λ lex' t' text' e.
                  insert_token-found lex lex' trie token fresh (generated ∷ more) t t' word at e)
            where
              only :
                  {tag : Text}
                  → ((k : PersistentTerm) × (find token.text trie ≡ some k) × (k.data_tag ≡ tag))
                  → t.data_tag ≡ tag
              only (k, at', tagged) =
                  let same : k ≡ t = cc in
                  ap (λ (j : PersistentTerm). j.data_tag) (sym same) ∙ tagged

          first_token :
              find token.text trie ≡ none
              → Inserts S T lex trie token
                  (insert_token S F can_create T fresh (generated ∷ more) lex trie token)
          first_token absent =
              let tag = least_used_pls S F lex fresh in
              let t : PersistentTerm = record { text = token.text; tf = 0; data_tag = tag } in
              joined t refl (ground (arith, absent))
                (λ d.
                  sym (
                    ap
                      (λ o. elim o [
                        | none ↦ none
                        | some k ↦ entry_at S lex k.data_tag token.text d
                      ])
                      (sym absent))
                  ∙ sym (nothing tag d (entry_at S lex tag token.text d) refl))
                (λ y d e h. absurd (no_entry (indexed.known y token.text d e h)))
                (least_used_pls-HasList S F laws lex token.text fresh s new_fresh)
                (λ lex' t' text' e.
                  insert_token-new lex lex' trie token fresh (generated ∷ more) t' word absent
                    (unfold new_term in e)
                  ∙ ap (λ y. some (lex', insert_key y t' trie)) text')
            where
              no_entry :
                  {tag : Text}
                  → ((k : PersistentTerm) × (find token.text trie ≡ some k) × (k.data_tag ≡ tag))
                  → ⊥
              no_entry (k, at', tagged) = cc

              nothing :
                  (tag : Text) (d : ℕ) (o : Option Entry)
                  → entry_at S lex tag token.text d ≡ o
                  → entry_at S lex tag token.text d ≡ none
              nothing tag d none h = h
              nothing tag d (some e) h = absurd (no_entry (indexed.known tag token.text d e h))
