-- ===== src/Constrained/Lexicon/Memory/Evicted.antt =====
-- `evict` takes sets out of the memory, the oldest first, and loses no entry.
use irengine.Common.{
  some-injective, none-some, ℕ, ◌≡◌, ◌≢◌, refl, sym, ap, subst, ◌∙◌, ◌⊎◌, inl, inr, if◌then◌else◌,
  Bool, false, true, Option, some, List, [], ◌∷◌, ◌++◌, All, pos, is_negative, not, ◌&&◌, Text,
  nat_key, text_key, lookup, Bool-cases,
}
use irengine.Indexer.SkipMap.{SkipMap}
use irengine.Indexer.Entry.{Entry}
use irengine.Constrained.Lexicon.{LoadTests, Container, Lexicon}
use irengine.Constrained.Lexicon.Memory.{
  is_empty, settle_load, is_loaded, evict_oldest, evict_loop, evict,
}
use irengine.Constrained.Lexicon.Memory.Kept.{IsRecent, IsSound}
use irengine.Constrained.Lexicon.Memory.Round.{
  IsEvicted, after, evict_oldest-after, after-order, after-IsSound, after-IsEvicted,
}

module _ (S : SkipMap Entry) where
  module _ (F : LoadTests) where
    -- The load is at most 0.8 of the limit, or no set is left to evict.
    abbrev pub IsWithin : Lexicon S → Type 0
    IsWithin lex = (is_loaded S F lex ≡ false) ⊎ (lex.lru_cache ≡ [])

    abbrev pub Evicts : Lexicon S → Option (Lexicon S) → Type 0
    Evicts lex o =
        (lex' : Lexicon S) × (older : List ℕ) × (o ≡ some lex')
        × (lex.lru_cache ≡ older ++ lex'.lru_cache)
        × IsWithin lex'
        × IsSound S lex'
        × IsEvicted S lex lex'

  module _ (F : LoadTests) (can_create : Text → Bool)
      (creates : (t : Text) → can_create t ≡ true) where
    IsEvicted-refl : (lex : Lexicon S) → IsEvicted S lex lex
    IsEvicted-refl lex = record {
      tags = refl;
      next = refl;
      init = refl;
      limits = (refl, refl);
      entries = λ tag x d. refl;
      stays = λ a n. refl;
      fate = λ a c e. inl e;
      files = λ tag. inl refl;
    }

    unfold_pls : (c c' : Container S) → some c ≡ some c' → c.pls ≡ c'.pls
    unfold_pls c c' e = ap (λ (k : Container S). k.pls) (some-injective e)

    IsEvicted-next :
        (lex mid lex' : Lexicon S) (a : ℕ)
        → IsSound S lex
        → lex.lru_cache ≡ a ∷ mid.lru_cache
        → IsEvicted S lex mid
        → IsEvicted S mid lex'
        → IsEvicted S lex lex'
    IsEvicted-next lex mid lex' a sound order e f = record {
      tags = f.tags ∙ e.tags;
      next = f.next ∙ e.next;
      init = f.init ∙ e.init;
      limits = (f.limits.0 ∙ e.limits.0, f.limits.1 ∙ e.limits.1);
      entries = λ tag x d. f.entries tag x d ∙ e.entries tag x d;
      stays = λ b n. f.stays b (subst (All (λ i. i ≢ b)) order n).1 ∙ e.stays b n;
      fate = λ b c at. elim (e.fate b c at) [
        | inl same ↦ f.fate b c same
        | inr (c', at', tagged, gone) ↦ elim (f.fate b c' at') [
          | inl same ↦ inr (c', same, tagged, gone)
          | inr (c'', at'', tagged', gone') ↦ inr (c'', at'', tagged' ∙ tagged, gone')
        ]
      ];
      files = λ tag. elim (f.files tag) [
        | inl same ↦ elim (e.files tag) [
          | inl same' ↦ inl (same ∙ same')
          | inr (b, c, pls, key, at, loaded, file) ↦ inr (b, c, pls, key, at, loaded, same ∙ file)
        ]
        | inr (b, c, pls, key, at, loaded, file) ↦
            let key' : lookup tag lex.pl_set_cache ≡ some b = ap (lookup tag) (sym e.tags) ∙ key in
            let (c0, at0, tagged, k) = sound.cached tag b key' in
            elim (e.fate b c0 at0) [
              | inl same ↦
                  inr (b, c0, pls, key', at0, (unfold_pls c0 c (sym same ∙ at)) ∙ loaded, file)
              | inr (c', at', t', gone) ↦
                  absurd (none-some (sym gone ∙ unfold_pls c' c (sym at' ∙ at) ∙ loaded))
            ]
      ];
    }

    -- What the load test sets changes neither order nor contents.
    settled :
        (lex : Lexicon S)
        → IsSound S lex
        → IsSound S (settle_load S lex)
          × IsEvicted S lex (settle_load S lex)
          × ((settle_load S lex).lru_cache ≡ lex.lru_cache)
    unfolding settle_load
    settled lex s = go (not (is_negative lex.max_load) && is_empty S lex.lru_cache)
      where
        go :
            (b : Bool)
            → IsSound S (if b then record lex { current_load = pos 0 } else lex)
              × IsEvicted S lex (if b then record lex { current_load = pos 0 } else lex)
              × ((if b then record lex { current_load = pos 0 } else lex).lru_cache ≡ lex.lru_cache)
        go true = (
          record {
            maker = s.maker;
            distinct = s.distinct;
            cached = s.cached;
            recent = s.recent;
            apart = s.apart;
            fresh = s.fresh;
            owned = s.owned;
          },
          record {
            tags = refl;
            next = refl;
            init = refl;
            limits = (refl, refl);
            entries = λ tag x d. refl;
            stays = λ a n. refl;
            fate = λ a c e. inl e;
            files = λ tag. inl refl;
          },
          refl,
        )
        go false = (s, IsEvicted-refl lex, refl)

    evict_loop-over :
        (lex mid : Lexicon S) (a : ℕ) (rest : List ℕ)
        → is_loaded S F lex ≡ true
        → evict_oldest S can_create lex a rest ≡ some mid
        → evict_loop S F can_create (a ∷ rest) lex ≡ evict_loop S F can_create rest mid
    unfolding evict_loop
    evict_loop-over lex mid a rest e f = rw (e, f, evict_loop) refl

    evict_loop-fits :
        (lex : Lexicon S) (a : ℕ) (rest : List ℕ)
        → is_loaded S F lex ≡ false
        → evict_loop S F can_create (a ∷ rest) lex ≡ some lex
    unfolding evict_loop
    evict_loop-fits lex a rest e = rw (e, evict_loop) refl

    evict_loop_lem :
        (l : List ℕ) (lex : Lexicon S)
        → lex.lru_cache ≡ l
        → IsSound S lex
        → Evicts F lex (evict_loop S F can_create l lex)
    unfolding evict_loop
    evict_loop_lem [] lex order s =
        let (s', e, same) = settled lex s in
        (settle_load S lex, [], refl, sym same, inr (same ∙ order), s', e)
    evict_loop_lem (a ∷ rest) lex order s = elim (Bool-cases (is_loaded S F lex)) [
      | inr fits ↦ (lex, [], evict_loop-fits lex a rest fits, refl, inl fits, s, IsEvicted-refl lex)
      | inl over ↦
          let (c, pls, at, in_memory, here) =
            (subst (All (IsRecent S lex.containers lex.pl_set_cache)) order s.recent).0 in
          let mid = after S can_create creates lex a rest order s c pls at in_memory here in
          let round =
            evict_oldest-after S can_create creates lex a rest order s c pls at in_memory here in
          let sound =
            after-IsSound S can_create creates lex a rest order s c pls at in_memory here in
          let changed =
            after-IsEvicted S can_create creates lex a rest order s c pls at in_memory here in
          let left = after-order S can_create creates lex a rest order s c pls at in_memory here in
          let (lex', older, runs, split, within, s', e) = evict_loop_lem rest mid left sound in
          (
            lex',
            a ∷ older,
            evict_loop-over lex mid a rest over round ∙ runs,
            order ∙ ap (λ l. a ∷ l) (sym left ∙ split),
            within,
            s',
            IsEvicted-next lex mid lex' a s (order ∙ ap (λ l. a ∷ l) (sym left)) changed e,
          )
    ]

    -- In a sound lexicon, if files can be created, `evict` ends without a panic. It takes sets out of the
    -- memory from the oldest one on, until the load is at most 0.8 of the limit or none is left. The lexicon
    -- stays sound: each term and document has the entry that it had, and the containers are as they were
    -- but for the sets that are gone.
    pub evict_lem : (lex : Lexicon S) → IsSound S lex → Evicts F lex (evict S F can_create lex)
    unfolding evict
    evict_lem lex s = evict_loop_lem lex.lru_cache lex refl s
