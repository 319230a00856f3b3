-- ===== src/Constrained/Lexicon/Disk/Indexed.antt =====
-- The terms that `LoadFromDisk` puts into the trie: each one has the tag of the set with its list.
use irengine.Common.{
  List, true-false, none-some, some-injective, ℕ, ◌≡◌, refl, sym, ap, subst, ◌∙◌, inl, inr, false,
  Option, none, some, [], ◌∷◌, arith, Text, text_eq, text_eq_iff, Dict, nat_key, text_key, lookup,
  Bool-cases, Option-cases,
}
use irengine.Indexer.SkipMap.{SkipMap}
use irengine.Indexer.Ordered.{IsOrdered}
use irengine.Indexer.Entry.{Entry}
use irengine.Indexer.PostingList.{PostingList, get_entry}
use irengine.Indexer.PostingList.Valid.{get_entry-entries}
use irengine.Indexer.TermMap.{TermMap}
use irengine.Constrained.PostingListSet.{PostingListSet}
use irengine.Constrained.PostingListSet.Reload.{AreDistinct, view}
use irengine.Constrained.PostingListSet.Consistent.{IsConsistent, All-lookup_text}
use irengine.Constrained.PostingListSet.Restored.{IsMaker}
use irengine.Constrained.PostingListSet.Filled.{HasEntry, IsFilled}
use irengine.Constrained.Lexicon.{Lexicon}
use irengine.Constrained.Lexicon.Memory.Kept.{entry_at}
use irengine.Constrained.Lexicon.Terms.{PersistentTerm}
use irengine.Constrained.Lexicon.Terms.Entries.{IsIndexed}
use irengine.Constrained.Lexicon.Disk.{insert_terms, sum_frequencies}
use irengine.Constrained.Lexicon.Disk.Loaded.{HasLoaded}

module _ (S : SkipMap Entry) where
  open S use {entries}

  -- The term that is made of a list.
  abbrev pub term_of_list : Text → Text → PostingList S → PersistentTerm
  term_of_list tag x pl = record {
    text = x;
    tf = sum_frequencies (entries pl.list);
    data_tag = tag;
  }

  module _ (T : TermMap PersistentTerm) where
    open T use {Trie, find, insert_key, find-insert_key}

    pub find-insert_terms :
        (tag : Text) (m : Dict Text (PostingList S)) (trie : Trie) (x : Text)
        → AreDistinct m
        → find x (insert_terms S T tag m trie)
          ≡ elim (lookup x m) [ none ↦ find x trie | some pl ↦ some (term_of_list tag x pl) ]
    unfolding insert_terms
    find-insert_terms tag [] trie x h = refl
    find-insert_terms tag ((y, pl) ∷ m) trie x (new, h) =
        let trie' = insert_key y (term_of_list tag y pl) trie in
        find-insert_terms tag m trie' x h ∙ elim (Bool-cases (text_eq y x)) [
          | inr other ↦ rw other (
              ap (λ o. elim (lookup x m) [ none ↦ o | some q ↦ some (term_of_list tag x q) ])
                (find-insert_key y x (term_of_list tag y pl) trie ∙ rw other refl))
          | inl same ↦
              let p = (text_eq_iff y x).0 same in
              rw same (
                ap (λ o. elim o [ none ↦ find x trie' | some q ↦ some (term_of_list tag x q) ])
                  (ap (λ k. lookup k m) (sym p) ∙ new)
                ∙ find-insert_key y x (term_of_list tag y pl) trie
                ∙ rw same refl
                ∙ ap (λ k. some (term_of_list tag k pl)) p)
        ]

    -- No term has entries in two sets.
    abbrev pub AreSplit : (Text → Text → ℕ → Option Entry) → Type 0
    AreSplit v =
        (t u x : Text) (d k : ℕ) (e f : Entry) → v t x d ≡ some e → v u x k ≡ some f → t ≡ u

    -- A term counts the occurrences of its entries.
    abbrev pub IsCounted : Lexicon S → Trie → Type 0
    IsCounted lex trie =
        (x : Text) (t : PersistentTerm)
        → find x trie ≡ some t
        → (l : List (ℕ × Entry)) × IsOrdered l
          × (t.tf ≡ sum_frequencies l)
          × ((d : ℕ) → lookup d l ≡ entry_at S lex t.data_tag x d)

    -- The lexicon has some of the entries.
    abbrev pub IsPart : Lexicon S → (Text → Text → ℕ → Option Entry) → Type 0
    IsPart lex v =
        (t x : Text) (d : ℕ) (e : Entry) → entry_at S lex t x d ≡ some e → v t x d ≡ some e

    module _ (v : Text → Text → ℕ → Option Entry) (split : AreSplit v) (lex lex' : Lexicon S)
        (tag : Text) (pls : PostingListSet S) (maker : IsMaker S lex.pl_init)
        (new : lookup tag lex.pl_set_cache ≡ none) (part : IsPart lex v)
        (loaded : HasLoaded S lex tag (v tag) lex') (ok : IsConsistent S lex.pl_init pls)
        (views : (x : Text) (d : ℕ) → view S pls x d ≡ v tag x d) (filled : IsFilled S pls)
        (trie : Trie) (index : IsIndexed S T lex trie) where
      pub loaded-IsPart : IsPart lex' v
      loaded-IsPart t x d e h = elim (Bool-cases (text_eq tag t)) [
        | inl same ↦
            ap (λ u. v u x d) (sym ((text_eq_iff tag t).0 same))
            ∙ (rw same at (sym (loaded.entries t x d) ∙ h))
        | inr other ↦ part t x d e (rw other at (sym (loaded.entries t x d) ∙ h))
      ]

      entry-filled :
          (x : Text) (pl : PostingList S)
          → lookup x pls.list_map ≡ some pl
          → (d : ℕ) × (e : Entry) × (v tag x d ≡ some e)
      entry-filled x pl at =
          let (d, e, has) = All-lookup_text (HasEntry S) x pl pls.list_map filled at in
          (
            d,
            e,
            sym (views x d)
                ∙ ap (λ o. get_entry S (elim o [ none ↦ pls.pl_init | some q ↦ q ]) d) at
                ∙ has,
          )

      -- An entry of the set is one of a list.
      entry-list :
          (x : Text) (d : ℕ) (e : Entry)
          → v tag x d ≡ some e
          → (pl : PostingList S) × (lookup x pls.list_map ≡ some pl)
      entry-list x d e h = elim (Option-cases (lookup x pls.list_map)) [
        | inr found ↦ found
        | inl missing ↦ absurd (none-some (sym (nothing missing) ∙ views x d ∙ h))
      ]
        where
          nothing : lookup x pls.list_map ≡ none → view S pls x d ≡ none
          nothing missing =
              ap (λ o. get_entry S (elim o [ none ↦ pls.pl_init | some q ↦ q ]) d) missing
              ∙ ap (λ i. get_entry S i d) ok.made
              ∙ get_entry-entries S lex.pl_init d
              ∙ rw maker.bare refl

      other_tag :
          (t x : Text) (d : ℕ) (e : Entry) → entry_at S lex t x d ≡ some e → text_eq tag t ≡ false
      other_tag t x d e h = elim (Bool-cases (text_eq tag t)) [
        | inr other ↦ other
        | inl same ↦ absurd (
            none-some (
              sym (
                nothing
                  (ap (λ u. lookup u lex.pl_set_cache) (sym ((text_eq_iff tag t).0 same)) ∙ new))
              ∙ h))
      ]
        where
          nothing : lookup t lex.pl_set_cache ≡ none → entry_at S lex t x d ≡ none
          nothing absent = ground (arith, absent)

      at_own : (x : Text) (d : ℕ) → entry_at S lex' tag x d ≡ v tag x d
      at_own x d = loaded.entries tag x d ∙ rw ((text_eq_iff tag tag).1 refl) refl

      at_other :
          (t x : Text) (d : ℕ)
          → text_eq tag t ≡ false
          → entry_at S lex' t x d ≡ entry_at S lex t x d
      at_other t x d other = loaded.entries t x d ∙ rw other refl

      found :
          (x : Text)
          → find x (insert_terms S T tag pls.list_map trie) ≡ elim (lookup x pls.list_map) [
            | none ↦ find x trie
            | some pl ↦ some (term_of_list tag x pl)
          ]
      found x = find-insert_terms tag pls.list_map trie x ok.distinct

      found_new :
          (x : Text) (pl : PostingList S)
          → lookup x pls.list_map ≡ some pl
          → find x (insert_terms S T tag pls.list_map trie) ≡ some (term_of_list tag x pl)
      found_new x pl has =
          found x
          ∙ ap (λ o. elim o [ none ↦ find x trie | some q ↦ some (term_of_list tag x q) ]) has

      found_old :
          (x : Text)
          → lookup x pls.list_map ≡ none
          → find x (insert_terms S T tag pls.list_map trie) ≡ find x trie
      found_old x missing =
          found x
          ∙ ap (λ o. elim o [ none ↦ find x trie | some q ↦ some (term_of_list tag x q) ]) missing

      abbrev HasTerm : Text → PersistentTerm → Type 0
      HasTerm x t =
          (t.text ≡ x) × ((d : ℕ) × (e : Entry) × (entry_at S lex' t.data_tag x d ≡ some e))

      loaded_held :
          (x : Text) (t : PersistentTerm)
          → find x (insert_terms S T tag pls.list_map trie) ≡ some t
          → HasTerm x t
      loaded_held x t at = elim (Option-cases (lookup x pls.list_map)) [
        | inr (pl, has) ↦
            let (d, e, h) = entry-filled x pl has in
            subst (HasTerm x) (some-injective (sym (found_new x pl has) ∙ at))
              (refl, (d, e, at_own x d ∙ h))
        | inl missing ↦
            let (text, (d, e, h)) = index.held x t (sym (found_old x missing) ∙ at) in
            (text, (d, e, at_other t.data_tag x d (other_tag t.data_tag x d e h) ∙ h))
      ]

      abbrev IsKnown : Text → Text → Type 0
      IsKnown t x =
          (k : PersistentTerm) × (find x (insert_terms S T tag pls.list_map trie) ≡ some k)
          × (k.data_tag ≡ t)

      own-IsKnown : (x : Text) (d : ℕ) (e : Entry) → v tag x d ≡ some e → IsKnown tag x
      own-IsKnown x d e h =
          let (pl, has) = entry-list x d e h in (term_of_list tag x pl, found_new x pl has, refl)

      other-IsKnown :
          (t x : Text) (d : ℕ) (e : Entry)
          → text_eq tag t ≡ false
          → entry_at S lex t x d ≡ some e
          → IsKnown t x
      other-IsKnown t x d e other h =
          let (k, f, tagged) = index.known t x d e h in
          elim (Option-cases (lookup x pls.list_map)) [
            | inl missing ↦ (k, found_old x missing ∙ f, tagged)
            | inr (pl, has) ↦
                let (i, e', h') = entry-filled x pl has in
                absurd (
                  true-false (
                    sym ((text_eq_iff tag t).1 (split tag t x i d e' e h' (part t x d e h)))
                    ∙ other))
          ]

      pub loaded-IsIndexed : IsIndexed S T lex' (insert_terms S T tag pls.list_map trie)
      loaded-IsIndexed = record {
        held = loaded_held;
        known = λ t x d e h. elim (Bool-cases (text_eq tag t)) [
          | inl same ↦
              let p = (text_eq_iff tag t).0 same in
              subst (λ u. IsKnown u x) p
                (own-IsKnown x d e (sym (at_own x d) ∙ ap (λ u. entry_at S lex' u x d) p ∙ h))
          | inr other ↦ other-IsKnown t x d e other (sym (at_other t x d other) ∙ h)
        ];
      }

      pub loaded-IsCounted :
          IsCounted lex trie → IsCounted lex' (insert_terms S T tag pls.list_map trie)
      loaded-IsCounted counted x t at = elim (Option-cases (lookup x pls.list_map)) [
        | inr (pl, has) ↦
            subst
              (λ (k : PersistentTerm).
                (l : List (ℕ × Entry)) × IsOrdered l
                × (k.tf ≡ sum_frequencies l)
                × ((d : ℕ) → lookup d l ≡ entry_at S lex' k.data_tag x d))
              (some-injective (sym (found_new x pl has) ∙ at))
              (
                entries pl.list,
                S.entries-IsOrdered pl.list,
                refl,
                λ d.
                    sym (get_entry-entries S pl d)
                    ∙ sym (ap (λ o. get_entry S (elim o [ none ↦ pls.pl_init | some q ↦ q ]) d) has)
                    ∙ views x d
                    ∙ sym (at_own x d),
              )
        | inl missing ↦
            let before = sym (found_old x missing) ∙ at in
            let (text, (k, e, h)) = index.held x t before in
            let (l, o, sums, same) = counted x t before in
            (l, o, sums, λ d. same d ∙ sym (at_other t.data_tag x d (other_tag t.data_tag x k e h)))
      ]
