-- ===== src/Constrained/Lexicon/Memory/Settled.antt =====
-- The switch of `RetrievePLS` where no set is split.
use irengine.Common.{
  ℕ, ◌+◌, ==_iff, ◌≡◌, refl, sym, ap, subst, ◌∙◌, inl, inr, Bool, false, true, Option, none, some,
  arith, Text, text_eq, text_eq_iff, Dict, nat_key, text_key, lookup, lookup-insert, Bool-cases,
  Option-cases,
}
use irengine.Indexer.SkipMap.{SkipMap}
use irengine.Indexer.Entry.{Entry}
use irengine.Constrained.PostingListSet.{PostingListSet, new_posting_list_set}
use irengine.Constrained.PostingListSet.Consistent.{IsConsistent}
use irengine.Constrained.PostingListSet.Restored.{new-IsConsistent}
use irengine.Constrained.Lexicon.{
  LoadTests, Container, Lexicon, loaded_at, new_container, make_recent,
}
use irengine.Constrained.Lexicon.Memory.{
  Retrieved, add_pls, store, count_create, create_pls, touched, read_pls, hit_pls, pls_switch,
}
use irengine.Constrained.Lexicon.Memory.Keeps.{
  Keeps-trans, evict-Keeps, add_pls-Keeps, make_recent-Keeps, touched-Keeps,
}
use irengine.Constrained.Lexicon.Memory.Kept.{
  contents, entry_at, IsKept, IsSound, entry_at-contents,
}
use irengine.Constrained.Lexicon.Memory.Evicted.{evict_lem}
use irengine.Constrained.Lexicon.Memory.Changed.{
  make_recent-IsSound, make_recent-same, store-IsSound, store-entries,
}
use irengine.Constrained.Lexicon.Memory.Added.{
  added_at, added_tag, add_pls-IsSound, add_pls-entries,
}
use irengine.Constrained.Lexicon.Memory.Settles.{stats-IsSound, view-new, is_over, Fits, Settles}
use irengine.Constrained.Lexicon.Memory.ReadBack.{same_container, own_tag, read_pls-Settles}

module _ (S : SkipMap Entry) where
  module _ (F : LoadTests) (can_create : Text → Bool) (creates : (t : Text) → can_create t ≡ true)
      (lex : Lexicon S) (sound : IsSound S lex) (tag : Text) where
    create_pls-Settles :
        lookup tag lex.pl_set_cache ≡ none → Settles S lex tag (create_pls S F can_create lex tag)
    unfolding create_pls
    create_pls-Settles new =
        let (lex', older, runs, order, within, s, e) = evict_lem S F can_create creates lex sound in
        let new' : lookup tag lex'.pl_set_cache ≡ none = ap (lookup tag) e.tags ∙ new in
        let pls = new_posting_list_set S lex'.pl_init in
        let added = add_pls S lex' tag pls in
        let ok = new-IsConsistent S lex'.pl_init in
        (
          count_create S added,
          lex'.next,
          pls,
          rw (runs, create_pls) refl,
          loaded-new added lex'.next tag pls (added_at S lex' s tag pls new' ok),
          added_tag S lex' s tag pls new' ok,
          stats-IsSound S added _ (add_pls-IsSound S lex' s tag pls new' ok),
          Keeps-trans S lex lex' added (evict-Keeps S lex lex' e) (add_pls-Keeps S lex' tag pls),
          λ t x d.
              add_pls-entries S lex' s tag pls new' ok t x d ∙ elim (Bool-cases (text_eq tag t)) [
                | inl same ↦ rw same (
                    view-new S lex'.pl_init s.maker x d
                    ∙ sym (
                        nothing t x d (
                          ap (λ y. lookup y lex.pl_set_cache) (sym ((text_eq_iff tag t).0 same))
                          ∙ new)))
                | inr other ↦ rw other (e.entries t x d)
              ],
        )
      where
        loaded-new :
            (l : Lexicon S) (a : ℕ) (t : Text) (p : PostingListSet S)
            → lookup a l.containers ≡ some (new_container S t p)
            → loaded_at S l a ≡ some p
        loaded-new l a t p h =
            ap (λ o. elim o [ none ↦ none | some c ↦ c.pls ]) h ∙ unfold new_container in refl

        nothing :
            (t x : Text) (d : ℕ) → lookup t lex.pl_set_cache ≡ none → entry_at S lex t x d ≡ none
        nothing t x d h = ground (arith, h)

    pls_switch-new :
        (again : (Text → Option (Lexicon S)) → Option (Retrieved S)) (text : Text)
        → lookup tag lex.pl_set_cache ≡ none
        → pls_switch S F can_create again lex text tag ≡ create_pls S F can_create lex tag
    unfolding pls_switch
    pls_switch-new again text new = rw (new, pls_switch) refl

    pls_switch-set :
        (again : (Text → Option (Lexicon S)) → Option (Retrieved S)) (text : Text) (a : ℕ)
        (c : Container S)
        → lookup tag lex.pl_set_cache ≡ some a
        → lookup a lex.containers ≡ some c
        → pls_switch S F can_create again lex text tag ≡ elim c.pls [
          | none ↦ read_pls S F can_create lex a c
          | some pls ↦ hit_pls S F can_create again lex a c pls text tag
        ]
    unfolding pls_switch
    pls_switch-set again text a c here at = rw (here, at, pls_switch) refl

    pub pls_switch-found :
        (again : (Text → Option (Lexicon S)) → Option (Retrieved S)) (text : Text) (a : ℕ)
        (c : Container S) (pls : PostingListSet S)
        → lookup tag lex.pl_set_cache ≡ some a
        → lookup a lex.containers ≡ some c
        → c.pls ≡ some pls
        → pls_switch S F can_create again lex text tag
          ≡ hit_pls S F can_create again lex a c pls text tag
    pls_switch-found again text a c pls here at loaded =
        pls_switch-set again text a c here at
        ∙ ap
            (λ o. elim o [
              | none ↦ read_pls S F can_create lex a c
              | some p ↦ hit_pls S F can_create again lex a c p text tag
            ])
            loaded

    pub pls_switch-read :
        (again : (Text → Option (Lexicon S)) → Option (Retrieved S)) (text : Text) (a : ℕ)
        (c : Container S)
        → lookup tag lex.pl_set_cache ≡ some a
        → lookup a lex.containers ≡ some c
        → c.pls ≡ none
        → pls_switch S F can_create again lex text tag ≡ read_pls S F can_create lex a c
    pls_switch-read again text a c here at gone =
        pls_switch-set again text a c here at
        ∙ ap
            (λ o. elim o [
              | none ↦ read_pls S F can_create lex a c
              | some p ↦ hit_pls S F can_create again lex a c p text tag
            ])
            gone

    module _ (a : ℕ) (c : Container S) (here : lookup tag lex.pl_set_cache ≡ some a)
        (at : lookup a lex.containers ≡ some c) where
      own : lookup c.tag lex.pl_set_cache ≡ some a
      own = own_tag S F can_create creates lex sound tag a c here at

      module _ (pls : PostingListSet S) (loaded : c.pls ≡ some pls) where
        pub kept_set : IsConsistent S lex.pl_init pls × (c.size ≡ pls.size)
        kept_set =
            subst (IsKept S lex.pl_init lex.disk c.tag c.size) loaded
              (same_container S F can_create creates lex sound tag a c here at).1

        pub touched-IsSound : IsSound S (touched S lex a c)
        unfolding touched
        touched-IsSound = stats-IsSound S (store S lex a (record c { hits = c.hits + 1 })) _ (
            store-IsSound S lex sound a c (record c { hits = c.hits + 1 }) pls at own refl loaded
              kept_set)

        pub touched-entries :
            (t x : Text) (d : ℕ) → entry_at S (touched S lex a c) t x d ≡ entry_at S lex t x d
        unfolding touched
        touched-entries t x d =
            store-entries S lex sound a c (record c { hits = c.hits + 1 }) pls at own refl loaded
              kept_set t x d
            ∙ elim (Bool-cases (text_eq c.tag t)) [
              | inr other ↦ rw other refl
              | inl same ↦ rw same (
                  sym (ap (λ o. contents S lex.pl_init lex.disk c.tag o x d) loaded)
                  ∙ sym (
                      entry_at-contents S lex t x d a c
                        (ap (λ y. lookup y lex.pl_set_cache) (sym ((text_eq_iff c.tag t).0 same))
                          ∙ own)
                        at))
            ]

      pls_switch-hit :
          (again : (Text → Option (Lexicon S)) → Option (Retrieved S)) (text : Text)
          (pls : PostingListSet S)
          → c.pls ≡ some pls
          → is_over S lex c pls ≡ false
          → pls_switch S F can_create again lex text tag
            ≡ some (make_recent S (touched S lex a c) a, a, tag)
      unfolding hit_pls touched
      pls_switch-hit again text pls loaded fits =
          pls_switch-found again text a c pls here at loaded ∙ rw (fits, hit_pls) refl

      hit-Settles :
          (again : (Text → Option (Lexicon S)) → Option (Retrieved S)) (text : Text)
          (pls : PostingListSet S)
          → c.pls ≡ some pls
          → is_over S lex c pls ≡ false
          → Settles S lex tag (pls_switch S F can_create again lex text tag)
      hit-Settles again text pls loaded fits =
          let c' : Container S = record c { hits = c.hits + 1 } in
          let (heap, tags, views, init) = make_recent-same S (touched S lex a c) a in
          (
            make_recent S (touched S lex a c) a,
            a,
            pls,
            pls_switch-hit again text pls loaded fits,
            ap (λ (h : Dict ℕ (Container S)). elim (lookup a h) [ none ↦ none | some c0 ↦ c0.pls ])
                  heap
                ∙ unfold touched in
                  ap (λ o. elim o [ none ↦ none | some c0 ↦ c0.pls ]) {y = some c'}
                    (lookup-insert a a c' lex.containers ∙ rw ((==_iff a a).1 refl) refl)
                  ∙ loaded,
            ap (lookup tag) tags ∙ unfold touched in here,
            make_recent-IsSound S (touched S lex a c) a (touched-IsSound pls loaded),
            Keeps-trans S lex (touched S lex a c) (make_recent S (touched S lex a c) a)
                (touched-Keeps S lex a c) (make_recent-Keeps S (touched S lex a c) a),
            λ t x d. views t x d ∙ touched-entries pls loaded t x d,
          )

    pub pls_switch-Settles :
        (again : (Text → Option (Lexicon S)) → Option (Retrieved S)) (text : Text)
        → Fits S lex tag
        → Settles S lex tag (pls_switch S F can_create again lex text tag)
    pls_switch-Settles again text fits = elim (Option-cases (lookup tag lex.pl_set_cache)) [
      | inl new ↦
          subst (Settles S lex tag) (sym (pls_switch-new again text new)) (create_pls-Settles new)
      | inr (a, here) ↦
          let (c, at, tagged, k) = sound.cached tag a here in
          elim (Option-cases c.pls) [
            | inl gone ↦
                subst (Settles S lex tag) (sym (pls_switch-read again text a c here at gone))
                  (read_pls-Settles S F can_create creates lex sound tag a c here at gone)
            | inr (pls, loaded) ↦
                hit-Settles a c here at again text pls loaded (fits a c pls here at loaded)
          ]
    ]
