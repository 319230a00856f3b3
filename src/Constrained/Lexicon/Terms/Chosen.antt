-- ===== src/Constrained/Lexicon/Terms/Chosen.antt =====
-- The set that `LeastUsedPLS` chooses for a new term.
use irengine.Common.{
  none-some, ℕ, ◌≤◌, ◌≡◌, refl, sym, ap, subst, ◌∙◌, ◌⊎◌, inl, inr, ltb, true, Option, none, some,
  List, [], ◌∷◌, arith, Text, nat_key, text_key, lookup, Bool-cases, Option-cases,
}
use irengine.Indexer.SkipMap.{SkipMap}
use irengine.Indexer.Entry.{Entry}
use irengine.Constrained.Lexicon.{
  LoadTests, Container, Lexicon, first_with_room, better_of, best_swapped, least_used_pls,
}
use irengine.Constrained.Lexicon.Memory.Kept.{IsSound}
use irengine.Constrained.Lexicon.Memory.Settles.{is_over}
use irengine.Constrained.Lexicon.Memory.Retrieves.{HasList}

-- A size that is below a part of the limit is below the limit.
pub record IsBelow (F : LoadTests) : Type 0 where
  pub below_95 : (size limit : ℕ) → F.below_95 size limit ≡ true → size ≤ limit
  pub below_75 : (size limit : ℕ) → F.below_75 size limit ≡ true → size ≤ limit

module _ (S : SkipMap Entry) where
  -- The container has room, in the lexicon's limit.
  abbrev pub HasRoom : Lexicon S → Container S → Type 0
  HasRoom lex c = (a : ℕ) × (lookup a lex.containers ≡ some c) × (c.size ≤ lex.per_pls_load)

  abbrev OptionRoom : Lexicon S → Option (Container S) → Type 0
  OptionRoom lex none = Unit
  OptionRoom lex (some c) = HasRoom lex c

  first_with_room-HasRoom :
      (lex : Lexicon S) (l : List ℕ) (tag : Text)
      → first_with_room S lex l ≡ some tag
      → (c : Container S) × (c.tag ≡ tag) × HasRoom lex c
  unfolding first_with_room
  first_with_room-HasRoom lex [] tag h = absurd (cc)
  first_with_room-HasRoom lex (a ∷ l) tag h = elim (Option-cases (lookup a lex.containers)) [
    | inl gone ↦ first_with_room-HasRoom lex l tag (rw (gone, first_with_room) at h)
    | inr (c, at) ↦ elim (Bool-cases (ltb c.size lex.per_pls_load)) [
      | inl room ↦
          let h' : some c.tag ≡ some tag = rw (at, room, first_with_room) at h in
          (c, cc, (a, at, ground arith))
      | inr full ↦ first_with_room-HasRoom lex l tag (rw (at, full, first_with_room) at h)
    ]
  ]

  module _ (F : LoadTests) (laws : IsBelow F) where
    better_of-HasRoom :
        (lex : Lexicon S) (best : Option (Container S)) (a : ℕ) (c : Container S)
        → lookup a lex.containers ≡ some c
        → OptionRoom lex best
        → OptionRoom lex (better_of S F lex.per_pls_load best c)
    unfolding better_of
    better_of-HasRoom lex none a c at h = elim (Bool-cases (F.below_95 c.size lex.per_pls_load)) [
      | inl room ↦ rw room (a, at, laws.below_95 c.size lex.per_pls_load room)
      | inr full ↦ rw full tt
    ]
    better_of-HasRoom lex (some b) a c at h = elim (Bool-cases (ltb b.hits c.hits)) [
      | inr fewer ↦ rw fewer h
      | inl more ↦ rw more (elim (Bool-cases (F.below_75 c.size lex.per_pls_load)) [
        | inl room ↦ rw room (a, at, laws.below_75 c.size lex.per_pls_load room)
        | inr full ↦ rw full h
      ])
    ]

    best_swapped-HasRoom :
        (lex : Lexicon S) (best : Option (Container S)) (l : List ℕ)
        → OptionRoom lex best
        → OptionRoom lex (best_swapped S F lex best l)
    unfolding best_swapped
    best_swapped-HasRoom lex best [] h = h
    best_swapped-HasRoom lex best (a ∷ l) h = elim (Option-cases (lookup a lex.containers)) [
      | inl gone ↦ rw (gone, best_swapped) (best_swapped-HasRoom lex best l h)
      | inr (c, at) ↦
          rw (at, best_swapped)
            (best_swapped-HasRoom lex (better_of S F lex.per_pls_load best c) l
              (better_of-HasRoom lex best a c at h))
    ]

    -- The tag is the new one, or that of a set that is not over its size.
    least_used_pls_lem :
        (lex : Lexicon S) (generated : Text)
        → (least_used_pls S F lex generated ≡ generated)
          ⊎ ((c : Container S) × (c.tag ≡ least_used_pls S F lex generated) × HasRoom lex c)
    unfolding least_used_pls
    least_used_pls_lem lex generated = elim (Option-cases (first_with_room S lex lex.lru_cache)) [
      | inr (tag, found) ↦
          let (c, tagged, room) = first_with_room-HasRoom lex lex.lru_cache tag found in
          rw (found, least_used_pls) (inr (c, tagged, room))
      | inl full ↦
          rw (full, least_used_pls)
            (elim (Option-cases (best_swapped S F lex none lex.swapped_cache)) [
              | inl no_best ↦ rw (no_best, least_used_pls) (inl refl)
              | inr (c, best) ↦
                  rw (best, least_used_pls)
                    (inr (
                      c,
                      refl,
                      subst (OptionRoom lex) best
                          (best_swapped-HasRoom lex none lex.swapped_cache tt),
                    ))
            ])
    ]

    -- So a new term never has its set split.
    pub least_used_pls-HasList :
        (lex : Lexicon S) (text generated : Text)
        → IsSound S lex
        → lookup generated lex.pl_set_cache ≡ none
        → HasList S lex text (least_used_pls S F lex generated)
    least_used_pls-HasList lex text generated s new a c pls here at loaded over =
        elim (least_used_pls_lem lex generated) [
          | inl fresh ↦
              let gone : lookup (least_used_pls S F lex generated) lex.pl_set_cache ≡ none =
                ap (λ t. lookup t lex.pl_set_cache) fresh ∙ new in
              absurd (none-some (sym gone ∙ here))
          | inr (k, tagged, (b, at', room)) ↦
              let own : lookup (least_used_pls S F lex generated) lex.pl_set_cache ≡ some b =
                ap (λ t. lookup t lex.pl_set_cache) (sym tagged) ∙ s.owned b k at' in
              let address : a ≡ b = cc in
              let at'' : lookup a lex.containers ≡ some k =
                ap (λ i. lookup i lex.containers) address ∙ at' in
              let same : k ≡ c = cc in
              let small : c.size ≤ lex.per_pls_load =
                subst (λ (e : Container S). e.size ≤ lex.per_pls_load) same room in
              absurd (not_over small over)
        ]
      where
        not_over : c.size ≤ lex.per_pls_load → is_over S lex c pls ≡ true → ⊥
        not_over h o = ground arith
