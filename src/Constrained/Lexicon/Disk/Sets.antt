-- ===== src/Constrained/Lexicon/Disk/Sets.antt =====
-- The loop of `LoadFromDisk` over the files.
use irengine.Common.{
  true-false, ℕ, ◌≡◌, ◌≢◌, refl, sym, ◌∙◌, Bool, true, false, Option, none, some, List, [], ◌∷◌,
  All, arith, Text, text_eq, text_eq_iff, text_key, lookup,
}
use irengine.Indexer.SkipMap.{SkipMap}
use irengine.Indexer.Entry.{Entry}
use irengine.Indexer.TermMap.{TermMap}
use irengine.Constrained.PostingListSet.Filled.{load-IsFilled}
use irengine.Constrained.Lexicon.{LoadTests, Lexicon}
use irengine.Constrained.Lexicon.Memory.Kept.{entry_at, IsSound}
use irengine.Constrained.Lexicon.Terms.{PersistentTerm}
use irengine.Constrained.Lexicon.Terms.Entries.{IsIndexed}
use irengine.Constrained.Lexicon.Disk.{load_set, load_sets}
use irengine.Constrained.Lexicon.Disk.Filed.{HasFile, HasFile-same}
use irengine.Constrained.Lexicon.Disk.Loaded.{HasLoaded, load_set_lem}
use irengine.Constrained.Lexicon.Disk.Indexed.{
  AreSplit, IsPart, IsCounted, loaded-IsPart, loaded-IsIndexed, loaded-IsCounted,
}

-- No text stands twice.
abbrev pub AreApartTexts : List Text → Type 0
AreApartTexts [] = Unit
AreApartTexts (t ∷ l) = All (λ u. t ≢ u) l × AreApartTexts l

apart-miss : (t u : Text) → t ≢ u → text_eq t u ≡ false
apart-miss t u n = ground (arith, text_eq_iff t u)

module _ (S : SkipMap Entry) (F : LoadTests) (can_create : Text → Bool)
    (creates : (t : Text) → can_create t ≡ true) (T : TermMap PersistentTerm)
    (v : Text → Text → ℕ → Option Entry) (split : AreSplit S T v) where
  open T use {Trie}

  -- A file that is not loaded yet
  abbrev pub IsPending : Lexicon S → Text → Type 0
  IsPending lex t = (lookup t lex.pl_set_cache ≡ none) × HasFile S lex.pl_init lex.disk t (v t)

  -- The lexicon has the entries of the files, and what it had under other tags.
  abbrev pub LoadsSets : Lexicon S → List Text → Option (Lexicon S × Trie) → Type 0
  LoadsSets lex tags o =
      (lex' : Lexicon S) × (trie' : Trie) × (o ≡ some (lex', trie'))
      × (IsSound S lex'
          × IsIndexed S T lex' trie'
          × (lex'.pl_init ≡ lex.pl_init)
          × ((lex'.max_load ≡ lex.max_load) × (lex'.per_pls_load ≡ lex.per_pls_load))
          × IsCounted S T lex' trie'
          × ((t : Text)
              → lookup t lex'.pl_set_cache ≡ none
              → All (λ u. u ≢ t) tags
                × (lookup t lex.pl_set_cache ≡ none)
                × (lookup t lex'.disk ≡ lookup t lex.disk)))
      × All (λ t. (x : Text) (d : ℕ) → entry_at S lex' t x d ≡ v t x d) tags
      × ((t : Text)
          → All (λ u. u ≢ t) tags
          → (x : Text) (d : ℕ) → entry_at S lex' t x d ≡ entry_at S lex t x d)

  load_sets-next :
      (lex mid : Lexicon S) (trie trie' : Trie) (tag : Text) (tags : List Text)
      → load_set S F can_create T lex trie tag ≡ some (mid, trie')
      → load_sets S F can_create T (tag ∷ tags) lex trie ≡ load_sets S F can_create T tags mid trie'
  unfolding load_sets
  load_sets-next lex mid trie trie' tag tags h = rw (h, load_sets) refl

  still_pending :
      (lex mid : Lexicon S) (tag : Text)
      → HasLoaded S lex tag (v tag) mid
      → (tags : List Text) → All (λ u. tag ≢ u) tags
      → All (IsPending lex) tags
      → All (IsPending mid) tags
  still_pending lex mid tag l [] a h = tt
  still_pending lex mid tag l (t ∷ tags) (n, ns) ((new, file), h) =
      let (new', same) = l.others t (apart-miss tag t n) new in
      (
        (
          new',
          HasFile-same S lex.pl_init mid.pl_init lex.disk mid.disk t (v t) (v t) l.init same
              (λ x d. refl) file,
        ),
        still_pending lex mid tag l tags ns h,
      )

  all_sym : (tag : Text) (tags : List Text) → All (λ u. tag ≢ u) tags → All (λ u. u ≢ tag) tags
  all_sym tag [] a = tt
  all_sym tag (t ∷ tags) (n, a) = (λ e. n (sym e), all_sym tag tags a)

  pub load_sets_lem :
      (tags : List Text) (lex : Lexicon S) (trie : Trie)
      → IsSound S lex
      → IsIndexed S T lex trie
      → IsPart S T lex v
      → IsCounted S T lex trie
      → AreApartTexts tags
      → All (IsPending lex) tags
      → LoadsSets lex tags (load_sets S F can_create T tags lex trie)
  unfolding load_sets
  load_sets_lem [] lex trie sound index part counted apart pending = (
    lex,
    trie,
    refl,
    (sound, index, refl, (refl, refl), counted, λ t h. (tt, h, refl)),
    tt,
    λ t a x d. refl,
  )
  load_sets_lem (tag ∷ tags) lex trie sound index part counted (apart, aparts)
        ((new, file), pending) =
      let (mid, text, pls, runs, l, reads, ok, views) =
        load_set_lem S F can_create creates T lex trie tag (v tag) sound new file in
      let filled = load-IsFilled S lex.pl_init text pls reads in
      let (lex', trie', runs', (s, i, init, (m, p), n, k), own, rest) =
        load_sets_lem tags mid _ l.sound
          (loaded-IsIndexed S T v split lex mid tag pls sound.maker new part l ok views filled trie
            index)
          (loaded-IsPart S T v split lex mid tag pls sound.maker new part l ok views filled trie
            index)
          (loaded-IsCounted S T v split lex mid tag pls sound.maker new part l ok views filled trie
            index counted)
          aparts (still_pending lex mid tag l tags apart pending) in
      (
        lex',
        trie',
        load_sets-next lex mid trie _ tag tags runs ∙ runs',
        (
          s,
          i,
          init ∙ l.init,
          (m ∙ l.limits.0, p ∙ l.limits.1),
          n,
          λ t h.
              let (ns, new', f) = k t h in
              let (other, before, g) = l.keeps t new' in
              ((λ e. true-false (sym ((text_eq_iff tag t).1 e) ∙ other), ns), before, f ∙ g),
        ),
        (
          λ x d.
              rest tag (all_sym tag tags apart) x d
              ∙ l.entries tag x d
              ∙ rw ((text_eq_iff tag tag).1 refl) refl,
          own,
        ),
        λ t (n, ns) x d. rest t ns x d ∙ l.entries t x d ∙ rw (apart-miss tag t (λ e. n e)) refl,
      )
