-- ===== src/Constrained/Lexicon/Disk/RoundTrip.antt =====
-- A lexicon that is saved and loaded again.
use irengine.Common.{
  true-false, none-some, some-injective, ℕ, ◌<◌, ◌^◌, ◌≡◌, ◌≢◌, refl, sym, ap, subst, ◌∙◌, inl, inr,
  Bool, true, Option, none, some, List, [], ◌∷◌, All, arith, ℤ, Text, text_eq, text_eq_iff, Dict,
  nat_key, text_key, lookup, length, Bool-cases, Option-cases,
}
use irengine.Indexer.SkipMap.{SkipMap}
use irengine.Indexer.Entry.{Entry}
use irengine.Indexer.PostingList.{create_basic}
use irengine.Indexer.TermMap.{TermMap}
use irengine.Constrained.Lexicon.{LoadTests, Lexicon, set_max_load, init_lexicon}
use irengine.Constrained.Lexicon.Memory.Kept.{entry_at, IsSound}
use irengine.Constrained.Lexicon.Metadata.{write_metadata, read_metadata}
use irengine.Constrained.Lexicon.Metadata.RoundTrip.{
  IsInt64, named_init, read_metadata-write_metadata,
}
use irengine.Constrained.Lexicon.Terms.{PersistentTerm}
use irengine.Constrained.Lexicon.Terms.Fresh.{
  set_max_load-fields, at_start, at_start-IsSound, at_start-IsIndexed,
}
use irengine.Constrained.Lexicon.Terms.Entries.{IsIndexed, entry_of}
use irengine.Constrained.Lexicon.Disk.{load_sets, save_to_disk, load_from_disk}
use irengine.Constrained.Lexicon.Disk.Filed.{HasFile, IsFiled, IsSaved, HasFile-same}
use irengine.Constrained.Lexicon.Disk.Saved.{save_to_disk_lem}
use irengine.Constrained.Lexicon.Disk.Indexed.{AreSplit, IsCounted}
use irengine.Constrained.Lexicon.Disk.Sets.{AreApartTexts, IsPending, LoadsSets, load_sets_lem}

-- What `filepath.Glob` lists: the tag of each file once.
pub record IsGlob (glob : Dict Text Text → List Text) : Type 0 where
  pub apart : (disk : Dict Text Text) → AreApartTexts (glob disk)
  pub files :
      (disk : Dict Text Text) → All (λ t. (text : Text) × (lookup t disk ≡ some text)) (glob disk)
  pub misses :
      (disk : Dict Text Text) (t : Text) → All (λ u. u ≢ t) (glob disk) → lookup t disk ≡ none

-- What holds of the listed texts, and of a text that is not listed, holds of all.
listed-or-not :
    (P : Text → Type 0) (t : Text) (l : List Text) → All P l → (All (λ u. u ≢ t) l → P t) → P t
listed-or-not P t [] a h = h tt
listed-or-not P t (u ∷ l) (p, a) h = elim (Bool-cases (text_eq u t)) [
  | inl same ↦ subst P ((text_eq_iff u t).0 same) p
  | inr other ↦
      listed-or-not P t l a (λ n. h ((λ e. true-false (sym ((text_eq_iff u t).1 e) ∙ other)), n))
]

module _ (S : SkipMap Entry) where
  -- No file has a tag that is not in use.
  abbrev pub IsClean : Lexicon S → Type 0
  IsClean lex = (t : Text) → lookup t lex.pl_set_cache ≡ none → lookup t lex.disk ≡ none

  module _ (T : TermMap PersistentTerm) where
    open T use {Trie, empty, find}

    IsIndexed-AreSplit :
        (lex : Lexicon S) (trie : Trie)
        → IsIndexed S T lex trie
        → AreSplit S T (λ t x d. entry_at S lex t x d)
    IsIndexed-AreSplit lex trie i t u x d k e f h g =
        let (p, at, tagged) = i.known t x d e h in
        let (q, at', tagged') = i.known u x k f g in
        sym tagged
        ∙ ap (λ (o : PersistentTerm). o.data_tag) (some-injective (sym at ∙ at'))
        ∙ tagged'

    -- Two tries of the same entries give each text the same entries.
    entry_of-same :
        (lex lex' : Lexicon S) (trie trie' : Trie)
        → IsIndexed S T lex trie
        → IsIndexed S T lex' trie'
        → ((t x : Text) (d : ℕ) → entry_at S lex' t x d ≡ entry_at S lex t x d)
        → (x : Text) (d : ℕ) → entry_of S T lex' trie' x d ≡ entry_of S T lex trie x d
    entry_of-same lex lex' trie trie' i j same x d = elim (Option-cases (find x trie)) [
      | inr (t, at) ↦
          let (text, (k, e, h)) = i.held x t at in
          let (t', at', tagged) = j.known t.data_tag x k e (same t.data_tag x k ∙ h) in
          of_term lex' trie' t' at'
          ∙ ap (λ u. entry_at S lex' u x d) tagged
          ∙ same t.data_tag x d
          ∙ sym (of_term lex trie t at)
      | inl missing ↦ elim (Option-cases (find x trie')) [
        | inl missing' ↦ of_none lex' trie' missing' ∙ sym (of_none lex trie missing)
        | inr (t', at') ↦
            let (text, (k, e, h)) = j.held x t' at' in
            let (t, at, tagged) = i.known t'.data_tag x k e (sym (same t'.data_tag x k) ∙ h) in
            absurd (none-some (sym missing ∙ at))
      ]
    ]
      where
        of_term :
            (l : Lexicon S) (m : Trie) (t : PersistentTerm)
            → find x m ≡ some t
            → entry_of S T l m x d ≡ entry_at S l t.data_tag x d
        of_term l m t h = ap (λ o. elim o [ none ↦ none | some k ↦ entry_at S l k.data_tag x d ]) h

        of_none : (l : Lexicon S) (m : Trie) → find x m ≡ none → entry_of S T l m x d ≡ none
        of_none l m h = ap (λ o. elim o [ none ↦ none | some k ↦ entry_at S l k.data_tag x d ]) h

    module _ (F : LoadTests) (can_create : Text → Bool) (creates : (t : Text) → can_create t ≡ true)
        (glob : Dict Text Text → List Text) (globs : IsGlob glob) where
      load_from_disk-run :
          (disk : Dict Text Text) (text : Text) (lex : Lexicon S)
          → read_metadata S 0 (record (init_lexicon S (create_basic S)) { disk = disk }) text
            ≡ some lex
          → load_from_disk S F can_create T glob disk (some text)
            ≡ load_sets S F can_create T (glob disk) lex empty
      unfolding load_from_disk
      load_from_disk-run disk text lex h = rw (h, load_from_disk) refl

      -- The lexicon has the same limit, initializer and entries, and a trie of its terms with their counts.
      abbrev pub Reloads : Lexicon S → Trie → Option (Lexicon S × Trie) → Type 0
      Reloads lex trie o =
          (lex' : Lexicon S) × (trie' : Trie) × (o ≡ some (lex', trie'))
          × (IsSound S lex' × IsIndexed S T lex' trie' × IsCounted S T lex' trie' × IsClean lex')
          × ((lex'.pl_init ≡ lex.pl_init) × (lex'.max_load ≡ lex.max_load))
          × ((t x : Text) (d : ℕ) → entry_at S lex' t x d ≡ entry_at S lex t x d)
          × ((x : Text) (d : ℕ) → entry_of S T lex' trie' x d ≡ entry_of S T lex trie x d)

      -- What is saved under the tags of the lexicon and under no other tag
      module _ (lex saved : Lexicon S) (trie : Trie) (sound : IsSound S lex)
          (index : IsIndexed S T lex trie) (clean : IsClean lex) (kept : IsSaved S lex saved)
          (filed : (t : Text) (a : ℕ) → lookup t lex.pl_set_cache ≡ some a → IsFiled S saved t)
          (limit : ℤ) (per : ℕ) where
        abbrev start : Lexicon S
        start = at_start S lex.pl_init saved.disk limit per

        nothing :
            (t x : Text) (d : ℕ) → lookup t lex.pl_set_cache ≡ none → entry_at S lex t x d ≡ none
        nothing t x d h = ground (arith, h)

        file_of :
            (t text : Text)
            → lookup t saved.disk ≡ some text
            → HasFile S lex.pl_init saved.disk t (λ x d. entry_at S lex t x d)
        file_of t text h = elim (Option-cases (lookup t lex.pl_set_cache)) [
          | inl new ↦ absurd (none-some (sym (kept.strays t new ∙ clean t new) ∙ h))
          | inr (a, key) ↦
              HasFile-same S saved.pl_init lex.pl_init saved.disk saved.disk t _ _ (sym kept.init)
                refl (λ x d. sym (kept.entries t x d)) (filed t a key)
        ]

        pending :
            (tags : List Text)
            → All (λ t. (text : Text) × (lookup t saved.disk ≡ some text)) tags
            → All
                (IsPending S F can_create creates T
                  (λ t x d. entry_at S lex t x d)
                  (IsIndexed-AreSplit lex trie index)
                  start)
                tags
        pending [] h = tt
        pending (t ∷ tags) ((text, f), h) = ((refl, file_of t text f), pending tags h)

        unlisted :
            (t x : Text) (d : ℕ) → All (λ u. u ≢ t) (glob saved.disk) → none ≡ entry_at S lex t x d
        unlisted t x d h = elim (Option-cases (lookup t lex.pl_set_cache)) [
          | inl new ↦ sym (nothing t x d new)
          | inr (a, key) ↦
              let (text, pls, file, reads, ok, views) = filed t a key in
              absurd (none-some (sym (globs.misses saved.disk t h) ∙ file))
        ]

        start-Reloads :
            LoadsSets S F can_create creates T
              (λ t x d. entry_at S lex t x d)
              (IsIndexed-AreSplit lex trie index)
              start
              (glob saved.disk)
              (load_sets S F can_create T (glob saved.disk) start empty)
            → limit ≡ lex.max_load
            → Reloads lex trie (load_sets S F can_create T (glob saved.disk) start empty)
        start-Reloads (lex', trie', runs, (s, i, init, (m, p), n, k), own, rest) same =
            let entries : (t x : Text) (d : ℕ) → entry_at S lex' t x d ≡ entry_at S lex t x d = λ t.
              listed-or-not (λ u. (x : Text) (d : ℕ) → entry_at S lex' u x d ≡ entry_at S lex u x d)
                t (glob saved.disk) own (λ m' x d. rest t m' x d ∙ unlisted t x d m') in
            (
              lex',
              trie',
              runs,
              (s, i, n, λ t h. let (ns, new, f) = k t h in f ∙ globs.misses saved.disk t ns),
              (init, m ∙ same),
              entries,
              entry_of-same lex lex' trie trie' index i entries,
            )

        start-loads :
            limit ≡ lex.max_load
            → Reloads lex trie (load_sets S F can_create T (glob saved.disk) start empty)
        start-loads same =
            start-Reloads
              (load_sets_lem S F can_create creates T (λ t x d. entry_at S lex t x d)
                (IsIndexed-AreSplit lex trie index) (glob saved.disk) start empty
                (at_start-IsSound S lex.pl_init saved.disk limit per sound.maker)
                (at_start-IsIndexed S T lex.pl_init saved.disk limit per)
                (λ t x d e h. absurd (none-some h))
                (λ x t h. absurd (none-some (sym (T.find-empty x) ∙ h))) (globs.apart saved.disk)
                (pending (glob saved.disk) (globs.files saved.disk)))
              same

      -- If the initializer is one of the two, the limit and the number of sets are of 64 bits, the files can
      -- be created, no file has another tag, and the tags of the files are listed once each: what `SaveToDisk` writes of a sound and indexed lexicon is loaded
      -- by `LoadFromDisk` without a panic. The loaded lexicon is sound and indexed again, and has the same
      -- initializer, limit and entries, by the tags and by the terms.
      pub load_from_disk-save_to_disk :
          (lex : Lexicon S) (trie : Trie)
          → IsSound S lex
          → IsIndexed S T lex trie
          → named_init S lex.pl_init ≡ lex.pl_init
          → IsInt64 lex.max_load
          → length lex.pl_set_cache < 2 ^ 63
          → IsClean lex
          → (saved : Lexicon S) × (metadata : Text) × (save_to_disk S F can_create true lex
              ≡ some (saved, metadata))
            × Reloads lex trie (load_from_disk S F can_create T glob saved.disk (some metadata))
      load_from_disk-save_to_disk lex trie sound index named wide many clean =
          let (saved, runs, kept, filed) = save_to_disk_lem S F can_create creates lex sound in
          let first = record (init_lexicon S (create_basic S)) { disk = saved.disk } in
          let read =
            (read_metadata-write_metadata S lex first many wide).0
            ∙ ap (λ i. some (set_max_load S (record first { pl_init = i }) lex.max_load)) named
            ∙ ap some
                (set_max_load-fields S (record first { pl_init = lex.pl_init }) lex.max_load) in
          (
            saved,
            write_metadata S lex,
            runs,
            subst (Reloads lex trie)
                (sym (load_from_disk-run saved.disk (write_metadata S lex) _ read))
                (start-loads lex saved trie sound index clean kept filed lex.max_load _ refl),
          )
