-- ===== src/Constrained/Lexicon/Memory/Settles.antt =====
-- What it is that the switch of `RetrievePLS` settles, and the statistics and messages, which do not matter.
use irengine.Common.{
  ℕ, ◌≡◌, ◌≢◌, refl, sym, ap, ◌∙◌, ◌&&◌, ltb, Bool, false, Option, none, some, List, [], ◌∷◌, All,
  Text, nat_key, text_key, lookup, length,
}
use irengine.Indexer.SkipMap.{SkipMap}
use irengine.Indexer.Entry.{Entry}
use irengine.Indexer.PostingList.{PostingList}
use irengine.Indexer.PostingList.Valid.{get_entry-entries}
use irengine.Constrained.PostingListSet.{PostingListSet, new_posting_list_set}
use irengine.Constrained.PostingListSet.Reload.{view}
use irengine.Constrained.PostingListSet.Restored.{IsMaker}
use irengine.Constrained.Lexicon.{Container, Lexicon, Stats, loaded_at, send}
use irengine.Constrained.Lexicon.Memory.{Retrieved}
use irengine.Constrained.Lexicon.Memory.Keeps.{Keeps}
use irengine.Constrained.Lexicon.Memory.Kept.{entry_at, IsRecent, IsSound}

module _ (S : SkipMap Entry) where
  pub stats-IsSound :
      (lex : Lexicon S) (st : Stats) → IsSound S lex → IsSound S (record lex { stats = st })
  stats-IsSound lex st s = record {
    maker = s.maker;
    distinct = s.distinct;
    cached = s.cached;
    recent = s.recent;
    apart = s.apart;
    fresh = s.fresh;
    owned = s.owned;
  }

  pub send-IsSound : (lex : Lexicon S) (a : ℕ) → IsSound S lex → IsSound S (send S lex a)
  unfolding send
  send-IsSound lex a s = record {
    maker = s.maker;
    distinct = s.distinct;
    cached = s.cached;
    recent = s.recent;
    apart = s.apart;
    fresh = s.fresh;
    owned = s.owned;
  }

  pub view-new :
      (init : PostingList S)
      → IsMaker S init
      → (x : Text) (d : ℕ) → view S (new_posting_list_set S init) x d ≡ none
  unfolding new_posting_list_set
  view-new init m x d = get_entry-entries S init d ∙ rw m.bare refl

  -- A set that is on disk only does not stand in the order of those in memory.
  pub not_recent :
      (lex : Lexicon S) (a : ℕ) (c : Container S) (l : List ℕ)
      → lookup a lex.containers ≡ some c
      → c.pls ≡ none
      → All (IsRecent S lex.containers lex.pl_set_cache) l
      → All (λ b. b ≢ a) l
  not_recent lex a c [] at gone r = tt
  not_recent lex a c (b ∷ l) at gone ((e, p, f, m, h), rs) = (
    λ same. differ (sym (ap (λ i. lookup i lex.containers) same) ∙ f),
    not_recent lex a c l at gone rs,
  )
    where
      differ : lookup a lex.containers ≡ some e → ⊥
      differ g = let same : c ≡ e = cc in cc

  -- The set of a container that is too large and has several terms is split.
  abbrev pub is_over : Lexicon S → Container S → PostingListSet S → Bool
  is_over lex c pls = ltb lex.per_pls_load c.size && ltb 1 (length pls.list_map)

  -- The set of the tag is not split.
  abbrev pub Fits : Lexicon S → Text → Type 0
  Fits lex tag =
      (a : ℕ) (c : Container S) (pls : PostingListSet S)
      → lookup tag lex.pl_set_cache ≡ some a
      → lookup a lex.containers ≡ some c
      → c.pls ≡ some pls
      → is_over lex c pls ≡ false

  -- The result is the set of the tag, in memory, and no entry has changed.
  abbrev pub Settles : Lexicon S → Text → Option (Retrieved S) → Type 0
  Settles lex tag o =
      (lex' : Lexicon S) × (a : ℕ) × (pls : PostingListSet S) × (o ≡ some (lex', a, tag))
      × (loaded_at S lex' a ≡ some pls)
      × (lookup tag lex'.pl_set_cache ≡ some a)
      × IsSound S lex'
      × Keeps S lex lex'
      × ((t x : Text) (d : ℕ) → entry_at S lex' t x d ≡ entry_at S lex t x d)
