-- ===== src/Constrained/Lexicon/Disk/Saved.antt =====
-- `SaveToDisk` writes a file of each set, and loses no entry.
use irengine.Common.{
  ℕ, ◌≡◌, refl, sym, ap, subst, ◌∙◌, inl, inr, Bool, true, false, Option, none, some, List, [], ◌∷◌,
  All, arith, Text, text_eq, text_eq_iff, Dict, nat_key, text_key, lookup, insert, lookup-insert,
  Option-cases, ==_iff,
}
use irengine.Indexer.SkipMap.{SkipMap}
use irengine.Indexer.Entry.{Entry}
use irengine.Constrained.PostingListSet.{PostingListSet, new_posting_list_set, load, dump}
use irengine.Constrained.PostingListSet.Reload.{AreDistinct}
use irengine.Constrained.PostingListSet.Consistent.{IsConsistent, All-lookup_text}
use irengine.Constrained.Lexicon.{LoadTests, Container, Lexicon}
use irengine.Constrained.Lexicon.Memory.{store, dump_pls, evict}
use irengine.Constrained.Lexicon.Memory.Kept.{entry_at, IsKept, IsSound}
use irengine.Constrained.Lexicon.Memory.Evicted.{evict_lem}
use irengine.Constrained.Lexicon.Memory.Changed.{store-IsSound}
use irengine.Constrained.Lexicon.Memory.Reread.{store-reread}
use irengine.Constrained.Lexicon.Metadata.{write_metadata}
use irengine.Constrained.Lexicon.Disk.{read_swapped, bring_back, save_pls, save_sets, save_to_disk}
use irengine.Constrained.Lexicon.Memory.Settles.{not_recent}
use irengine.Constrained.Lexicon.Disk.Filed.{
  IsFiled, IsSaved, IsSaved-refl, IsSaved-trans, HasFile-same, evict-IsSaved,
}
use irengine.Constrained.Lexicon.Disk.Dumped.{dumped, dumped-IsFiled, dumped-IsSaved}

module _ (S : SkipMap Entry) where
  module _ (F : LoadTests) (can_create : Text → Bool)
      (creates : (t : Text) → can_create t ≡ true) where
    -- The set of a tag is in memory, and nothing is lost.
    abbrev BringsBack : Lexicon S → Text → ℕ → Option (Lexicon S) → Type 0
    BringsBack lex tag a o =
        (lex' : Lexicon S) × (c : Container S) × (pls : PostingListSet S) × (o ≡ some lex')
        × (lookup a lex'.containers ≡ some c)
        × (c.tag ≡ tag)
        × (c.pls ≡ some pls)
        × IsSaved S lex lex'

    module _ (lex : Lexicon S) (sound : IsSound S lex) (tag : Text) (a : ℕ) (c : Container S)
        (at : lookup a lex.containers ≡ some c) (tagged : c.tag ≡ tag) where
      here : lookup c.tag lex.pl_set_cache ≡ some a
      here = sound.owned a c at

      bring_back-held :
          (pls : PostingListSet S)
          → c.pls ≡ some pls
          → bring_back S F can_create lex tag a c ≡ some lex
      unfolding bring_back
      bring_back-held pls loaded =
          ap
            (λ o. elim o [
              | some p ↦ some lex
              | none ↦ elim (read_swapped S lex tag) [
                | none ↦ none
                | some p ↦ evict S F can_create (store S lex a (record c { pls = some p }))
              ]
            ])
            loaded

      bring_back-run :
          (text : Text) (pls : PostingListSet S) (lex' : Lexicon S)
          → c.pls ≡ none
          → lookup tag lex.disk ≡ some text
          → load S (new_posting_list_set S lex.pl_init) text ≡ some pls
          → evict S F can_create (store S lex a (record c { pls = some pls })) ≡ some lex'
          → bring_back S F can_create lex tag a c ≡ some lex'
      unfolding bring_back read_swapped
      bring_back-run text pls lex' gone file reads runs =
          ap
            (λ o. elim o [
              | some p ↦ some lex
              | none ↦ elim (read_swapped S lex tag) [
                | none ↦ none
                | some p ↦ evict S F can_create (store S lex a (record c { pls = some p }))
              ]
            ])
            gone
          ∙ rw (file, reads) runs

      module _ (text : Text) (pls : PostingListSet S) (gone : c.pls ≡ none)
          (file : lookup c.tag lex.disk ≡ some text)
          (reads : load S (new_posting_list_set S lex.pl_init) text ≡ some pls)
          (kept : IsConsistent S lex.pl_init pls × (c.size ≡ pls.size)) where
        abbrev c' : Container S
        c' = record c { pls = some pls }

        stored-IsSound : IsSound S (store S lex a c')
        stored-IsSound = store-IsSound S lex sound a c c' pls at here refl refl kept

        stored-IsSaved : IsSaved S lex (store S lex a c')
        stored-IsSaved = record {
          sound = stored-IsSound;
          tags = refl;
          init = refl;
          limit = refl;
          entries = entries;
          filed = λ t h.
              HasFile-same S lex.pl_init lex.pl_init lex.disk lex.disk t _ _ refl refl (entries t)
                h;
          strays = λ t h. refl;
        }
          where
            entries :
                (t x : Text) (d : ℕ) → entry_at S (store S lex a c') t x d ≡ entry_at S lex t x d
            entries =
                store-reread S lex sound a c c' text pls at here gone refl refl file reads kept

        bring_back-gone : BringsBack lex tag a (bring_back S F can_create lex tag a c)
        bring_back-gone =
            let (lex', older, runs, order, within, s, e) =
              evict_lem S F can_create creates (store S lex a c') stored-IsSound in
            (
              lex',
              c',
              pls,
              bring_back-run text pls lex' gone (ap (λ t. lookup t lex.disk) (sym tagged) ∙ file)
                  reads runs,
              e.stays a (not_recent S lex a c lex.lru_cache at gone sound.recent)
                  ∙ lookup-insert a a c' lex.containers
                  ∙ rw ((==_iff a a).1 refl) refl,
              tagged,
              refl,
              IsSaved-trans S lex (store S lex a c') lex' stored-IsSaved
                  (evict-IsSaved S (store S lex a c') lex' stored-IsSound s e),
            )

      bring_back_lem :
          IsKept S lex.pl_init lex.disk c.tag c.size c.pls
          → BringsBack lex tag a (bring_back S F can_create lex tag a c)
      bring_back_lem k = elim (Option-cases c.pls) [
        | inr (pls, loaded) ↦
            (lex, c, pls, bring_back-held pls loaded, at, tagged, loaded, IsSaved-refl S lex sound)
        | inl gone ↦
            let (text, pls, file, reads, ok, sized) =
              subst (IsKept S lex.pl_init lex.disk c.tag c.size) gone k in
            bring_back-gone text pls gone file reads (ok, sized)
      ]

    dump_pls-run :
        (lex : Lexicon S) (c : Container S) (pls : PostingListSet S)
        → c.pls ≡ some pls
        → dump_pls S can_create lex c
          ≡ some (record lex { disk = insert c.tag (dump S pls) lex.disk })
    unfolding dump_pls
    dump_pls-run lex c pls loaded = ground (arith, creates c.tag, loaded)

    save_pls-run :
        (lex mid : Lexicon S) (tag : Text) (a : ℕ) (c e : Container S)
        → lookup a lex.containers ≡ some c
        → bring_back S F can_create lex tag a c ≡ some mid
        → lookup a mid.containers ≡ some e
        → save_pls S F can_create lex tag a ≡ dump_pls S can_create mid e
    unfolding save_pls
    save_pls-run lex mid tag a c e at back found = rw (at, back, found, save_pls) refl

    -- A round writes the file of the tag, and nothing is lost.
    save_pls_lem :
        (lex : Lexicon S) (tag : Text) (a : ℕ)
        → IsSound S lex
        → lookup tag lex.pl_set_cache ≡ some a
        → (lex' : Lexicon S) × (save_pls S F can_create lex tag a ≡ some lex')
          × IsSaved S lex lex'
          × IsFiled S lex' tag
    save_pls_lem lex tag a sound key =
        let (c, at, tagged, k) = sound.cached tag a key in
        let (mid, e, pls, back, found, tagged', loaded, saved) =
          bring_back_lem lex sound tag a c at tagged k in
        (
          dumped S mid saved.sound a e pls found loaded,
          save_pls-run lex mid tag a c e at back found ∙ dump_pls-run mid e pls loaded,
          IsSaved-trans S lex mid _ saved (dumped-IsSaved S mid saved.sound a e pls found loaded),
          subst (IsFiled S (dumped S mid saved.sound a e pls found loaded)) tagged'
              (dumped-IsFiled S mid saved.sound a e pls found loaded),
        )

    save_sets-next :
        (lex mid : Lexicon S) (tag : Text) (a : ℕ) (sets : List (Text × ℕ))
        → save_pls S F can_create lex tag a ≡ some mid
        → save_sets S F can_create ((tag, a) ∷ sets) lex ≡ save_sets S F can_create sets mid
    unfolding save_sets
    save_sets-next lex mid tag a sets h = rw (h, save_sets) refl

    abbrev Saves : Lexicon S → List (Text × ℕ) → Option (Lexicon S) → Type 0
    Saves lex sets o =
        (lex' : Lexicon S) × (o ≡ some lex')
        × IsSaved S lex lex'
        × All (λ (p : Text × ℕ). IsFiled S lex' p.0) sets

    abbrev IsKey : Lexicon S → Text × ℕ → Type 0
    IsKey lex p = lookup p.0 lex.pl_set_cache ≡ some p.1

    save_sets_lem :
        (sets : List (Text × ℕ)) (lex : Lexicon S)
        → IsSound S lex
        → All (IsKey lex) sets
        → Saves lex sets (save_sets S F can_create sets lex)
    unfolding save_sets
    save_sets_lem [] lex sound keys = (lex, refl, IsSaved-refl S lex sound, tt)
    save_sets_lem ((tag, a) ∷ sets) lex sound (key, keys) =
        let (mid, runs, saved, filed) = save_pls_lem lex tag a sound key in
        let (lex', runs', saved', rest) =
          save_sets_lem sets mid saved.sound (kept mid saved.tags sets keys) in
        (
          lex',
          save_sets-next lex mid tag a sets runs ∙ runs',
          IsSaved-trans S lex mid lex' saved saved',
          (saved'.filed tag filed, rest),
        )
      where
        kept :
            (mid : Lexicon S)
            → mid.pl_set_cache ≡ lex.pl_set_cache
            → (l : List (Text × ℕ)) → All (IsKey lex) l
            → All (IsKey mid) l
        kept mid same [] h = tt
        kept mid same ((t, b) ∷ l) (h, hs) = (ap (lookup t) same ∙ h, kept mid same l hs)

    -- The map of the sets lists each tag once.
    keys-IsKey :
        (lex : Lexicon S) (m : Dict Text ℕ)
        → AreDistinct m
        → ((t : Text) (a : ℕ) → lookup t m ≡ some a → lookup t lex.pl_set_cache ≡ some a)
        → All (IsKey lex) m
    keys-IsKey lex [] a h = tt
    keys-IsKey lex ((t, b) ∷ m) (new, ds) h = (
      h t b (rw ((text_eq_iff t t).1 refl) refl),
      keys-IsKey lex m ds (λ u c e. h u c (rw (apart u c e) e)),
    )
      where
        apart : (u : Text) (c : ℕ) → lookup u m ≡ some c → text_eq t u ≡ false
        apart u c e = ground (arith, text_eq_iff t u, new)

    -- If the files can be created, `SaveToDisk` of a sound lexicon ends without a panic and leaves a sound
    -- lexicon that has the same entries. The file of each tag can be read and has what the lexicon has under
    -- the tag; what the directory has under other tags stays. The text of the metadata is the one of
    -- `WriteMetadata`.
    pub save_to_disk_lem :
        (lex : Lexicon S)
        → IsSound S lex
        → (lex' : Lexicon S) × (save_to_disk S F can_create true lex
            ≡ some (lex', write_metadata S lex))
          × IsSaved S lex lex'
          × ((tag : Text) (a : ℕ) → lookup tag lex.pl_set_cache ≡ some a → IsFiled S lex' tag)
    save_to_disk_lem lex sound =
        let (lex', runs, saved, filed) =
          save_sets_lem lex.pl_set_cache lex sound
            (keys-IsKey lex lex.pl_set_cache sound.distinct (λ t a h. h)) in
        (
          lex',
          unfold save_to_disk in rw runs refl,
          saved,
          λ tag a key.
              All-lookup_text (λ (p : Text × ℕ). IsFiled S lex' p.0) tag a lex.pl_set_cache filed
                key,
        )
