-- ===== src/Constrained/Lexicon/Memory/Unlisted.antt =====
-- A set that `RetrievePLS` reads from disk, and `evict`.
use irengine.Common.{
  ◌+◌, ℕ, zero, suc, ◌≡◌, ◌≢◌, refl, ap, subst, ◌∙◌, true, Bool, Option, none, some, [], All, Text,
  nat_key, text_key, lookup,
}
use irengine.Indexer.SkipMap.{SkipMap}
use irengine.Indexer.Entry.{Entry}
use irengine.Constrained.PostingListSet.{PostingListSet}
use irengine.Constrained.Lexicon.{LoadTests, Container, Lexicon, loaded_at}
use irengine.Constrained.Lexicon.Memory.{evict, start_again, retrieve_pls}
use irengine.Constrained.Lexicon.Memory.Kept.{IsSound}
use irengine.Constrained.Lexicon.Memory.Evicted.{evict_lem}
use irengine.Constrained.Lexicon.Memory.Settles.{stats-IsSound}
use irengine.Constrained.Lexicon.Memory.ReadBack.{same_container, read_pls-unlisted, All-rest}
use irengine.Constrained.Lexicon.Memory.Settled.{pls_switch-read}

module _ (S : SkipMap Entry) (F : LoadTests) (can_create : Text → Bool) where
  -- So many calls of `evict`
  abbrev pub evict_times : ℕ → Lexicon S → Option (Lexicon S)
  evict_times zero lex = some lex
  evict_times (suc n) lex = elim (evict S F can_create lex) [
    | none ↦ none
    | some lex' ↦ evict_times n lex'
  ]

  -- After so many calls the set is in memory, and out of the order of the sets that can be evicted.
  abbrev pub StaysLoaded : ℕ → PostingListSet S → ℕ → Lexicon S → Type 0
  StaysLoaded a pls n lex =
      (lex' : Lexicon S) × (evict_times n lex ≡ some lex')
      × (loaded_at S lex' a ≡ some pls)
      × All (λ b. b ≢ a) lex'.lru_cache

  module _ (creates : (t : Text) → can_create t ≡ true) where
    evict_times-StaysLoaded :
        (a : ℕ) (pls : PostingListSet S) (n : ℕ) (lex : Lexicon S)
        → IsSound S lex
        → loaded_at S lex a ≡ some pls
        → All (λ b. b ≢ a) lex.lru_cache
        → StaysLoaded a pls n lex
    evict_times-StaysLoaded a pls zero lex s loaded apart = (lex, refl, loaded, apart)
    evict_times-StaysLoaded a pls (suc n) lex s loaded apart =
        let (mid, older, runs, order, within, s', e) = evict_lem S F can_create creates lex s in
        let (lex', more, loaded', apart') =
          evict_times-StaysLoaded a pls n mid s'
            (ap (λ o. elim o [ none ↦ none | some c ↦ c.pls ]) (e.stays a apart) ∙ loaded)
            (All-rest a older mid.lru_cache (subst (All (λ b. b ≢ a)) order apart)) in
        (
          lex',
          ap (λ o. elim o [ none ↦ none | some l ↦ evict_times n l ]) runs ∙ more,
          loaded',
          apart',
        )

    -- In a sound lexicon `RetrievePLS` of a term whose set is on disk only reads the set into the memory and
    -- leaves it out of the order of the sets in memory: calls of `evict` right behind it, however many, end
    -- without a panic and leave it in memory, whatever the load. Files can be created.
    pub retrieve_pls-unlisted :
        (lex : Lexicon S) (text tag : Text) (a : ℕ) (c : Container S)
        → IsSound S lex
        → lookup tag lex.pl_set_cache ≡ some a
        → lookup a lex.containers ≡ some c
        → c.pls ≡ none
        → (lex' : Lexicon S) × (pls : PostingListSet S) × (retrieve_pls S F can_create [] lex text
              tag
            ≡ some (lex', a, tag))
          × ((n : ℕ) → StaysLoaded a pls n lex')
    unfolding retrieve_pls start_again
    retrieve_pls-unlisted lex text tag a c s here at gone =
        let counted = record lex {
          stats = record lex.stats { fetch_count = lex.stats.fetch_count + 1 };
        } in
        let s' = stats-IsSound S lex counted.stats s in
        let (lex', pls, runs, loaded, apart, sound) =
          read_pls-unlisted S F can_create creates counted s' tag a c here at gone in
        let (tagged, k) = same_container S F can_create creates lex s tag a c here at in
        (
          lex',
          pls,
          pls_switch-read S F can_create creates counted s' tag (λ move. none) text a c here at gone
              ∙ runs
              ∙ ap (λ y. some (lex', a, y)) tagged,
          λ n. evict_times-StaysLoaded a pls n lex' sound loaded apart,
        )
