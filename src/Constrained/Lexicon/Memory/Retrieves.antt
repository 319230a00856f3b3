-- ===== src/Constrained/Lexicon/Memory/Retrieves.antt =====
-- What `RetrievePLS` does: the set of a term in memory, with its entries.
use irengine.Common.{
  ℕ, ◌≡◌, refl, sym, ap, ◌∙◌, ◌⊎◌, inl, inr, false, true, Option, none, some, arith, Text, text_eq,
  nat_key, text_key, lookup, Option-cases,
}
use irengine.Indexer.SkipMap.{SkipMap}
use irengine.Indexer.Entry.{Entry}
use irengine.Indexer.PostingList.{PostingList}
use irengine.Constrained.PostingListSet.{PostingListSet}
use irengine.Constrained.PostingListSet.Reload.{view}
use irengine.Constrained.Lexicon.{Container, Lexicon, loaded_at}
use irengine.Constrained.Lexicon.Memory.{Retrieved}
use irengine.Constrained.Lexicon.Memory.Keeps.{Keeps}
use irengine.Constrained.Lexicon.Memory.Kept.{entry_at, IsSound}
use irengine.Constrained.Lexicon.Memory.Settles.{is_over, Settles}
use irengine.Constrained.Lexicon.Memory.Split.{IsElsewhere}

module _ (S : SkipMap Entry) where
  -- If the set of a tag is to be split, it has a list of the term.
  abbrev pub HasList : Lexicon S → Text → Text → Type 0
  HasList lex text tag =
      (a : ℕ) (c : Container S) (pls : PostingListSet S)
      → lookup tag lex.pl_set_cache ≡ some a
      → lookup a lex.containers ≡ some c
      → c.pls ≡ some pls
      → is_over S lex c pls ≡ true
      → (pl : PostingList S) × (lookup text pls.list_map ≡ some pl)

  -- The term has its tag, or a new one, and then no entry is left under the tag that it had.
  abbrev pub HasMoved : Lexicon S → Text → Text → Text → Text → Type 0
  HasMoved lex text tag tag' generated =
      (tag' ≡ tag)
      ⊎ ((tag' ≡ generated)
          × (text_eq tag' tag ≡ false)
          × ((d : ℕ) → entry_at S lex tag text d ≡ none))

  -- The set in memory has the term's entries, and no other term has lost or got an entry.
  abbrev pub Retrieves : Lexicon S → Text → Text → Text → Option (Retrieved S) → Type 0
  Retrieves lex text tag generated o =
      (lex' : Lexicon S) × (a : ℕ) × (tag' : Text) × (pls : PostingListSet S) × (o
        ≡ some (lex', a, tag'))
      × HasMoved lex' text tag tag' generated
      × (loaded_at S lex' a ≡ some pls)
      × (lookup tag' lex'.pl_set_cache ≡ some a)
      × IsSound S lex'
      × Keeps S lex lex'
      × ((d : ℕ) → view S pls text d ≡ entry_at S lex tag text d)
      × ((t x : Text) (d : ℕ)
          → IsElsewhere tag tag' text t x
          → entry_at S lex' t x d ≡ entry_at S lex t x d)

  pub loaded_entries :
      (lex : Lexicon S) (a : ℕ) (tag x : Text) (d : ℕ) (pls : PostingListSet S)
      → loaded_at S lex a ≡ some pls
      → lookup tag lex.pl_set_cache ≡ some a
      → view S pls x d ≡ entry_at S lex tag x d
  loaded_entries lex a tag x d pls h e = elim (Option-cases (lookup a lex.containers)) [
    | inl gone ↦ absurd (cc)
    | inr (c, at) ↦
        let set : c.pls ≡ some pls =
          sym (ap (λ o. elim o [ none ↦ none | some k ↦ k.pls ]) at) ∙ h in
        ground (arith, e, at, set)
  ]

  -- Where nothing is split, the tag stays.
  pub settled-Retrieves :
      (lex : Lexicon S) (text tag generated : Text) (o : Option (Retrieved S))
      → Settles S lex tag o
      → Retrieves lex text tag generated o
  settled-Retrieves lex text tag generated o (lex', a, pls, e, loaded, here, s, init, same) = (
    lex',
    a,
    tag,
    pls,
    e,
    inl refl,
    loaded,
    here,
    s,
    init,
    λ d. loaded_entries lex' a tag text d pls loaded here ∙ same tag text d,
    λ t x d elsewhere. same t x d,
  )
