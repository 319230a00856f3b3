-- ===== src/Constrained/Lexicon/Memory/Retrieved.antt =====
-- `RetrievePLS`: the memory limit does not show.
use irengine.Common.{
  none-some, some-injective, ℕ, ◌+◌, ◌≡◌, refl, sym, ap, subst, ◌∙◌, inl, inr, Bool, false, true,
  Option, none, some, List, [], ◌∷◌, arith, Text, text_eq_iff, nat_key, text_key, lookup,
  lookup-insert, ==_iff, Bool-cases, Option-cases,
}
use irengine.Indexer.SkipMap.{SkipMap}
use irengine.Indexer.Entry.{Entry}
use irengine.Indexer.PostingList.{PostingList}
use irengine.Constrained.PostingListSet.{PostingListSet}
use irengine.Constrained.PostingListSet.Consistent.{IsConsistent}
use irengine.Constrained.Lexicon.{LoadTests, Container, Lexicon}
use irengine.Constrained.Lexicon.Memory.{
  Retrieved, hit_pls, pls_switch, start_again, retrieve_pls, split_pls, touched,
}
use irengine.Constrained.Lexicon.Memory.Keeps.{Keeps-trans, touched-Keeps}
use irengine.Constrained.Lexicon.Memory.Kept.{entry_at, IsSound}
use irengine.Constrained.Lexicon.Memory.Settles.{stats-IsSound, is_over, Fits, Settles}
use irengine.Constrained.Lexicon.Memory.ReadBack.{same_container}
use irengine.Constrained.Lexicon.Memory.Settled.{
  touched-IsSound, touched-entries, kept_set, pls_switch-found, pls_switch-Settles,
}
use irengine.Constrained.Lexicon.Memory.Split.{IsElsewhere, split_pls-Splits}
use irengine.Constrained.Lexicon.Memory.Retrieves.{
  HasList, Retrieves, loaded_entries, settled-Retrieves,
}

module _ (S : SkipMap Entry) where
  module _ (F : LoadTests) (can_create : Text → Bool)
      (creates : (t : Text) → can_create t ≡ true) where
    -- A second round splits nothing, whatever tags are left.
    second_round :
        (lex : Lexicon S) (text tag : Text) (more : List Text)
        → IsSound S lex
        → Fits S lex tag
        → Settles S lex tag (start_again S F can_create more lex text tag)
    unfolding start_again
    second_round lex text tag [] s fits =
        pls_switch-Settles S F can_create creates lex s tag _ text fits
    second_round lex text tag (g ∷ more) s fits =
        pls_switch-Settles S F can_create creates lex s tag _ text fits

    module _ (lex : Lexicon S) (sound : IsSound S lex) (text tag generated : Text)
        (more : List Text) (new : lookup generated lex.pl_set_cache ≡ none) where
      -- The jump back with a new tag
      abbrev again : (Text → Option (Lexicon S)) → Option (Retrieved S)
      again move = elim (move generated) [
        | none ↦ none
        | some lex' ↦ start_again S F can_create more lex' text generated
      ]

      hit_pls-over :
          (a : ℕ) (c : Container S) (pls : PostingListSet S)
          → is_over S lex c pls ≡ true
          → hit_pls S F can_create again lex a c pls text tag
            ≡ again (
                split_pls S F can_create
                  (touched S lex a c)
                  a
                  (record c { hits = c.hits + 1 })
                  pls
                  text)
      unfolding hit_pls
      hit_pls-over a c pls over = rw (over, hit_pls) refl

      split-Retrieves :
          (a : ℕ) (c : Container S) (pls : PostingListSet S) (pl : PostingList S)
          → lookup tag lex.pl_set_cache ≡ some a
          → lookup a lex.containers ≡ some c
          → c.pls ≡ some pls
          → is_over S lex c pls ≡ true
          → lookup text pls.list_map ≡ some pl
          → Retrieves S lex text tag generated (pls_switch S F can_create again lex text tag)
      split-Retrieves a c pls pl here at loaded over has =
          let c' : Container S = record c { hits = c.hits + 1 } in
          let (tagged, k) = same_container S F can_create creates lex sound tag a c here at in
          let ready = touched-IsSound S F can_create creates lex sound tag a c here at pls loaded in
          let same = touched-entries S F can_create creates lex sound tag a c here at pls loaded in
          let at' : lookup a (touched S lex a c).containers ≡ some c' =
            unfold touched in lookup-insert a a c' lex.containers ∙ rw ((==_iff a a).1 refl) refl in
          let here' : lookup c.tag (touched S lex a c).pl_set_cache ≡ some a =
            unfold touched in ap (λ t. lookup t lex.pl_set_cache) tagged ∙ here in
          let kept : IsConsistent S (touched S lex a c).pl_init pls × (c.size ≡ pls.size) =
            unfold touched in
            kept_set S F can_create creates lex sound tag a c here at pls loaded in
          let new' : lookup generated (touched S lex a c).pl_set_cache ≡ none =
            unfold touched in new in
          let (mid, split, s, fits, init, moved, left, others) =
            split_pls-Splits S F can_create creates (touched S lex a c) ready a c' pls at' here'
              kept text pl has generated new' loaded in
          let (lex', b, set, e, in_memory, here'', s', init', entries) =
            second_round mid text generated more s fits in
          (
            lex',
            b,
            generated,
            set,
            pls_switch-found S F can_create creates lex sound tag again text a c pls here at loaded
                ∙ hit_pls-over a c pls over
                ∙ ap
                    (λ o. elim o [
                      | none ↦ none
                      | some l ↦ start_again S F can_create more l text generated
                    ])
                    split
                ∙ e,
            inr (
              refl,
              ground (arith, text_eq_iff generated tag, here, new),
              λ d. entries tag text d ∙ ap (λ y. entry_at S mid y text d) (sym tagged) ∙ left d,
            ),
            in_memory,
            here'',
            s',
            Keeps-trans S lex (touched S lex a c) lex' (touched-Keeps S lex a c)
                (Keeps-trans S (touched S lex a c) mid lex' init init'),
            λ d.
                loaded_entries S lex' b generated text d set in_memory here''
                ∙ entries generated text d
                ∙ moved d
                ∙ same c.tag text d
                ∙ ap (λ t. entry_at S lex t text d) tagged,
            λ t x d elsewhere.
                entries t x d
                ∙ others t x d
                    (subst (λ y. IsElsewhere y generated text t x) (sym tagged) elsewhere)
                ∙ same t x d,
          )

      start_again-Retrieves :
          HasList S lex text tag
          → Retrieves S lex text tag generated (pls_switch S F can_create again lex text tag)
      start_again-Retrieves has = elim (Option-cases (lookup tag lex.pl_set_cache)) [
        | inl absent ↦ settled (λ a c pls here at loaded. absurd (missing absent here))
        | inr (a, here) ↦
            let (c, at, tagged, k) = sound.cached tag a here in
            elim (Option-cases c.pls) [
              | inl gone ↦ settled (λ a' c' pls here' at' loaded.
                  absurd (no_set a c here at gone a' c' pls here' at' loaded))
              | inr (pls, loaded) ↦ elim (Bool-cases (is_over S lex c pls)) [
                | inr small ↦ settled (λ a' c' pls' here' at' loaded'.
                    the_set a c pls here at loaded small a' c' pls' here' at' loaded')
                | inl over ↦
                    let (pl, found) = has a c pls here at loaded over in
                    split-Retrieves a c pls pl here at loaded over found
              ]
            ]
      ]
        where
          settled :
              Fits S lex tag
              → Retrieves S lex text tag generated (pls_switch S F can_create again lex text tag)
          settled fits =
              settled-Retrieves S lex text tag generated
                (pls_switch S F can_create again lex text tag)
                (pls_switch-Settles S F can_create creates lex sound tag again text fits)

          missing :
              {a : ℕ}
              → lookup tag lex.pl_set_cache ≡ none
              → lookup tag lex.pl_set_cache ≡ some a
              → ⊥
          missing e f = cc

          one_container :
              (a : ℕ) (c : Container S)
              → lookup tag lex.pl_set_cache ≡ some a
              → lookup a lex.containers ≡ some c
              → (a' : ℕ) (c' : Container S) → lookup tag lex.pl_set_cache ≡ some a'
              → lookup a' lex.containers ≡ some c'
              → c ≡ c'
          one_container a c here at a' c' here' at' =
              let address : a ≡ a' = cc in
              let at'' : lookup a lex.containers ≡ some c' =
                ap (λ i. lookup i lex.containers) address ∙ at' in
              cc

          no_set :
              (a : ℕ) (c : Container S)
              → lookup tag lex.pl_set_cache ≡ some a
              → lookup a lex.containers ≡ some c
              → c.pls ≡ none
              → (a' : ℕ) (c' : Container S) (p : PostingListSet S)
              → lookup tag lex.pl_set_cache ≡ some a'
              → lookup a' lex.containers ≡ some c'
              → c'.pls ≡ some p
              → ⊥
          no_set a c here at gone a' c' p here' at' loaded =
              let same = one_container a c here at a' c' here' at' in
              none-some (sym gone ∙ ap (λ (k : Container S). k.pls) same ∙ loaded)

          the_set :
              (a : ℕ) (c : Container S) (pls : PostingListSet S)
              → lookup tag lex.pl_set_cache ≡ some a
              → lookup a lex.containers ≡ some c
              → c.pls ≡ some pls
              → is_over S lex c pls ≡ false
              → (a' : ℕ) (c' : Container S) (p : PostingListSet S)
              → lookup tag lex.pl_set_cache ≡ some a'
              → lookup a' lex.containers ≡ some c'
              → c'.pls ≡ some p
              → is_over S lex c' p ≡ false
          the_set a c pls here at loaded small a' c' p here' at' loaded' =
              let same = one_container a c here at a' c' here' at' in
              let set : pls ≡ p =
                some-injective (sym loaded ∙ ap (λ (k : Container S). k.pls) same ∙ loaded') in
              subst (λ k. is_over S lex k p ≡ false) same
                (subst (λ q. is_over S lex c q ≡ false) set small)

    -- `RetrievePLS` of a term in a sound lexicon, with one new tag at hand: it ends without a panic, though
    -- it may start again. The set that it returns is in memory under the term's tag, which is the one it
    -- had or the new one, and has exactly the entries that the lexicon had of the term, in memory or on
    -- disk. The lexicon stays sound, and every other term under every tag has the entries it had. Files can be
    -- created, the new tag is not in use, and a set that is to be split has a list of the term.
    pub retrieve_pls_lem :
        (lex : Lexicon S) (text tag generated : Text) (more : List Text)
        → IsSound S lex
        → lookup generated lex.pl_set_cache ≡ none
        → HasList S lex text tag
        → Retrieves S lex text tag generated
            (retrieve_pls S F can_create (generated ∷ more) lex text tag)
    unfolding retrieve_pls start_again
    retrieve_pls_lem lex text tag generated more s new has =
        let st = record lex.stats { fetch_count = lex.stats.fetch_count + 1 } in
        start_again-Retrieves (record lex { stats = st }) (stats-IsSound S lex st s) text tag
          generated more new has
