-- ===== src/Constrained/Lexicon/Memory/Keeps.antt =====
-- What all operations leave as it is: the initializer, the limit, the tags, and the files of other tags.
use irengine.Common.{
  none-some, ℕ, ◌≡◌, refl, sym, ◌∙◌, inl, inr, if◌then◌else◌, false, none, arith, Text, text_eq,
  text_key, lookup, lookup-insert, length, ◌==◌, Bool, true,
}
use irengine.Indexer.SkipMap.{SkipMap}
use irengine.Indexer.Entry.{Entry}
use irengine.Constrained.PostingListSet.{PostingListSet}
use irengine.Constrained.Lexicon.{Container, Lexicon, make_recent, move_last}
use irengine.Constrained.Lexicon.Memory.{add_pls, touched}
use irengine.Constrained.Lexicon.Memory.Round.{IsEvicted}

module _ (S : SkipMap Entry) where
  -- A tag stays in use, and the file of a tag that is not in use does not change.
  abbrev pub Keeps : Lexicon S → Lexicon S → Type 0
  Keeps lex lex' =
      (lex'.pl_init ≡ lex.pl_init)
      × (lex'.max_load ≡ lex.max_load)
      × ((t : Text)
          → lookup t lex'.pl_set_cache ≡ none
          → (lookup t lex.pl_set_cache ≡ none) × (lookup t lex'.disk ≡ lookup t lex.disk))

  pub Keeps-refl : (lex : Lexicon S) → Keeps lex lex
  Keeps-refl lex = (refl, refl, λ t h. (h, refl))

  pub Keeps-trans : (lex mid lex' : Lexicon S) → Keeps lex mid → Keeps mid lex' → Keeps lex lex'
  Keeps-trans lex mid lex' (i, m, f) (j, n, g) =
      (j ∙ i, n ∙ m, λ t h. let (h', e) = g t h in let (h'', e') = f t h' in (h'', e ∙ e'))

  pub evict-Keeps : (lex lex' : Lexicon S) → IsEvicted S lex lex' → Keeps lex lex'
  evict-Keeps lex lex' e = (
    e.init,
    e.limits.0,
    λ t h.
        let new = same_tags t h in
        (
          new,
          elim (e.files t) [
            | inl same ↦ same
            | inr (a, c, pls, here, at, loaded, file) ↦ absurd (none-some (sym new ∙ here))
          ],
        ),
  )
    where
      same_tags : (t : Text) → lookup t lex'.pl_set_cache ≡ none → lookup t lex.pl_set_cache ≡ none
      same_tags t h = ground (arith, e.tags, h)

  pub add_pls-new :
      (lex : Lexicon S) (tag t : Text) (pls : PostingListSet S)
      → lookup t (add_pls S lex tag pls).pl_set_cache ≡ none
      → (text_eq tag t ≡ false) × (lookup t lex.pl_set_cache ≡ none)
  unfolding add_pls
  add_pls-new lex tag t pls h = ground (arith, lookup-insert tag t lex.next lex.pl_set_cache, h)

  pub add_pls-Keeps :
      (lex : Lexicon S) (tag : Text) (pls : PostingListSet S) → Keeps lex (add_pls S lex tag pls)
  unfolding add_pls
  add_pls-Keeps lex tag pls = (refl, refl, λ t h. ((add_pls-new lex tag t pls h).1, refl))

  pub touched-Keeps : (lex : Lexicon S) (a : ℕ) (c : Container S) → Keeps lex (touched S lex a c)
  unfolding touched
  touched-Keeps lex a c = (refl, refl, λ t h. (h, refl))

  pub make_recent-Keeps : (lex : Lexicon S) (a : ℕ) → Keeps lex (make_recent S lex a)
  unfolding make_recent
  make_recent-Keeps lex a = go (length lex.lru_cache == 1)
    where
      go :
          (b : Bool)
          → Keeps lex (if b then lex else record lex { lru_cache = move_last a lex.lru_cache })
      go true = Keeps-refl lex
      go false = (refl, refl, λ t h. (h, refl))
