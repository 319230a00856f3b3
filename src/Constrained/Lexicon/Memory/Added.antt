-- ===== src/Constrained/Lexicon/Memory/Added.antt =====
-- `AddPLS` under a new tag.
use irengine.Common.{
  some-injective, ℕ, ◌+◌, ◌<◌, ◌==◌, ==_iff, ◌≡◌, ◌≢◌, refl, sym, ap, ◌∙◌, inl, inr, if◌then◌else◌,
  false, none, some, List, [], ◌∷◌, arith, All, All-append, Text, text_eq, text_eq_iff, nat_key,
  text_key, lookup, insert, lookup-insert, Bool-cases, Option-cases,
}
use irengine.Indexer.SkipMap.{SkipMap}
use irengine.Indexer.Entry.{Entry}
use irengine.Constrained.PostingListSet.{PostingListSet}
use irengine.Constrained.PostingListSet.Reload.{view}
use irengine.Constrained.PostingListSet.Consistent.{AreDistinct-insert, IsConsistent}
use irengine.Constrained.Lexicon.{Container, Lexicon, new_container}
use irengine.Constrained.Lexicon.Memory.{add_pls}
use irengine.Constrained.Lexicon.Memory.Kept.{
  entry_at, IsKept, IsRecent, IsSound, entry_at-contents,
}
use irengine.Constrained.Lexicon.Memory.Changed.{AreApart-snoc}

module _ (S : SkipMap Entry) where
  module _ (lex : Lexicon S) (sound : IsSound S lex) (tag : Text) (pls : PostingListSet S)
      (new : lookup tag lex.pl_set_cache ≡ none) (ok : IsConsistent S lex.pl_init pls) where
    old_below :
        (b : ℕ) (c : Container S) → lookup b lex.containers ≡ some c → (lex.next == b) ≡ false
    old_below b c f = ground (arith, sound.fresh b c f)

    old_tag : (t : Text) (b : ℕ) → lookup t lex.pl_set_cache ≡ some b → text_eq tag t ≡ false
    old_tag t b e = ground (arith, text_eq_iff tag t, new)

    pub added_at :
        lookup lex.next (add_pls S lex tag pls).containers ≡ some (new_container S tag pls)
    unfolding add_pls
    added_at =
        lookup-insert lex.next lex.next _ lex.containers
        ∙ rw ((==_iff lex.next lex.next).1 refl) refl

    pub added_tag : lookup tag (add_pls S lex tag pls).pl_set_cache ≡ some lex.next
    unfolding add_pls
    added_tag =
        lookup-insert tag tag lex.next lex.pl_set_cache ∙ rw ((text_eq_iff tag tag).1 refl) refl

    old-IsRecent :
        (l : List ℕ)
        → All (IsRecent S lex.containers lex.pl_set_cache) l
        → All (IsRecent S (add_pls S lex tag pls).containers (add_pls S lex tag pls).pl_set_cache) l
    unfolding add_pls
    old-IsRecent [] r = tt
    old-IsRecent (b ∷ l) ((c, p, f, m, h), rs) = (
      (
        c,
        p,
        lookup-insert lex.next b _ lex.containers ∙ rw (old_below b c f) f,
        m,
        lookup-insert tag c.tag lex.next lex.pl_set_cache ∙ rw (old_tag c.tag b h) h,
      ),
      old-IsRecent l rs,
    )

    next_apart :
        (l : List ℕ)
        → All (IsRecent S lex.containers lex.pl_set_cache) l
        → All (λ b. b ≢ lex.next) l
    next_apart [] r = tt
    next_apart (b ∷ l) ((c, p, f, m, h), rs) = (λ e. ne (sound.fresh b c f) e, next_apart l rs)
      where
        ne : b < lex.next → b ≢ lex.next
        ne h e = absurd (omega (arith, e))

    pub add_pls-IsSound : IsSound S (add_pls S lex tag pls)
    unfolding add_pls new_container
    add_pls-IsSound = record {
      maker = sound.maker;
      distinct = AreDistinct-insert tag lex.next lex.pl_set_cache sound.distinct;
      cached = λ t b e. cached t b e;
      recent =
          All-append
            (IsRecent S (add_pls S lex tag pls).containers (add_pls S lex tag pls).pl_set_cache)
            lex.lru_cache (lex.next ∷ []) (old-IsRecent lex.lru_cache sound.recent)
            ((new_container S tag pls, pls, added_at, refl, added_tag), tt);
      apart =
          AreApart-snoc lex.next lex.lru_cache (next_apart lex.lru_cache sound.recent) sound.apart;
      fresh = λ b c f. fresh b c (sym (lookup-insert lex.next b _ lex.containers) ∙ f);
      owned = λ b c f. owned b c (sym (lookup-insert lex.next b _ lex.containers) ∙ f);
    }
      where
        owned :
            (b : ℕ) (c : Container S)
            → (if lex.next == b then some (new_container S tag pls) else lookup b lex.containers)
              ≡ some c
            → lookup c.tag (insert tag lex.next lex.pl_set_cache) ≡ some b
        owned b c f = elim (Bool-cases (lex.next == b)) [
          | inl same ↦
              let out : new_container S tag pls ≡ c = some-injective (rw same at f) in
              ap (λ (k : Container S). lookup k.tag (insert tag lex.next lex.pl_set_cache))
                (sym out)
              ∙ added_tag
              ∙ ap some ((==_iff lex.next b).0 same)
          | inr other ↦
              let f' : lookup b lex.containers ≡ some c = rw other at f in
              let h = sound.owned b c f' in
              lookup-insert tag c.tag lex.next lex.pl_set_cache ∙ rw (old_tag c.tag b h) h
        ]

        fresh :
            (b : ℕ) (c : Container S)
            → (if lex.next == b then some (new_container S tag pls) else lookup b lex.containers)
              ≡ some c
            → b < lex.next + 1
        fresh b c f = elim (Bool-cases (lex.next == b)) [
          | inl same ↦ omega (arith, (==_iff lex.next b).0 same)
          | inr other ↦ omega (arith, sound.fresh b c (rw other at f))
        ]

        cached :
            (t : Text) (b : ℕ)
            → lookup t (insert tag lex.next lex.pl_set_cache) ≡ some b
            → (c : Container S) × (lookup b
                  (insert lex.next (new_container S tag pls) lex.containers)
                ≡ some c)
              × (c.tag ≡ t)
              × IsKept S lex.pl_init lex.disk c.tag c.size c.pls
        cached t b e = elim (Bool-cases (text_eq tag t)) [
          | inl same ↦
              let e' : some lex.next ≡ some b =
                rw same at (sym (lookup-insert tag t lex.next lex.pl_set_cache) ∙ e) in
              let b-next : lex.next ≡ b = cc in
              (
                new_container S tag pls,
                ap (λ i. lookup i (insert lex.next (new_container S tag pls) lex.containers))
                      (sym b-next)
                    ∙ added_at,
                (text_eq_iff tag t).0 same,
                (ok, refl),
              )
          | inr other ↦
              let e' : lookup t lex.pl_set_cache ≡ some b =
                rw other at (sym (lookup-insert tag t lex.next lex.pl_set_cache) ∙ e) in
              let (c, f, t', k) = sound.cached t b e' in
              (c, lookup-insert lex.next b _ lex.containers ∙ rw (old_below b c f) f, t', k)
        ]

    pub add_pls-entries :
        (t x : Text) (d : ℕ)
        → entry_at S (add_pls S lex tag pls) t x d
          ≡ (if text_eq tag t then view S pls x d else entry_at S lex t x d)
    unfolding add_pls new_container
    add_pls-entries t x d = elim (Bool-cases (text_eq tag t)) [
      | inl same ↦ rw same (
          entry_at-contents S (add_pls S lex tag pls) t x d lex.next (new_container S tag pls)
            (ap (λ i. lookup i (insert tag lex.next lex.pl_set_cache))
                (sym ((text_eq_iff tag t).0 same))
              ∙ added_tag)
            added_at)
      | inr other ↦ rw other (elim (Option-cases (lookup t lex.pl_set_cache)) [
        | inl absent ↦ ground (arith, lookup-insert tag t lex.next lex.pl_set_cache, absent)
        | inr (b, e) ↦
            let (c, f, t', k) = sound.cached t b e in
            entry_at-contents S (add_pls S lex tag pls) t x d b c
              (lookup-insert tag t lex.next lex.pl_set_cache ∙ rw other e)
              (lookup-insert lex.next b _ lex.containers ∙ rw (old_below b c f) f)
            ∙ sym (entry_at-contents S lex t x d b c e f)
      ])
    ]
