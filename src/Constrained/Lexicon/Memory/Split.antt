-- ===== src/Constrained/Lexicon/Memory/Split.antt =====
-- A set that loses the list of a term to a new set.
use irengine.Common.{
  some-injective, ℕ, ◌-◌, ◌≡◌, ◌≢◌, refl, sym, ap, subst, ◌∙◌, ◌⊎◌, inl, inr, if◌then◌else◌, ◌&&◌,
  ltb, Bool, false, true, Option, none, some, arith, pos, ◌-ℤ◌, Text, text_eq, text_eq_iff, nat_key,
  text_key, lookup, Bool-cases,
}
use irengine.Indexer.SkipMap.{SkipMap}
use irengine.Indexer.Entry.{Entry}
use irengine.Indexer.PostingList.{PostingList, entry_count, get_entry}
use irengine.Indexer.PostingList.Valid.{get_entry-entries}
use irengine.Constrained.PostingListSet.{PostingListSet}
use irengine.Constrained.PostingListSet.Reload.{view}
use irengine.Constrained.PostingListSet.Consistent.{All-lookup_text, IsListed, IsConsistent}
use irengine.Constrained.Lexicon.{LoadTests, Container, Lexicon, new_container}
use irengine.Constrained.Lexicon.Memory.{add_pls, store, count_create, evict, split_pls}
use irengine.Constrained.Lexicon.Memory.Keeps.{Keeps, Keeps-trans, evict-Keeps, add_pls-Keeps}
use irengine.Constrained.Lexicon.Memory.Kept.{contents, entry_at, IsSound, entry_at-contents}
use irengine.Constrained.Lexicon.Memory.Round.{IsEvicted}
use irengine.Constrained.Lexicon.Memory.Evicted.{evict_lem}
use irengine.Constrained.Lexicon.Memory.Changed.{store-IsSound, store-entries}
use irengine.Constrained.Lexicon.Memory.Added.{
  added_at, added_tag, add_pls-IsSound, add_pls-entries,
}
use irengine.Constrained.Lexicon.Memory.Settles.{stats-IsSound, is_over, Fits}
use irengine.Constrained.Lexicon.Memory.Parted.{
  without, alone, transfer_pl-new, without-IsConsistent, alone-IsConsistent, view-without,
  view-alone,
}

-- Not the term that is moved from a tag to another.
abbrev pub IsElsewhere : Text → Text → Text → Text → Text → Type 0
IsElsewhere from to text t x = (x ≢ text) ⊎ ((t ≢ from) × (t ≢ to))

module _ (S : SkipMap Entry) where
  module _ (F : LoadTests) (can_create : Text → Bool) (creates : (t : Text) → can_create t ≡ true)
      (lex : Lexicon S) (sound : IsSound S lex) (a : ℕ) (c : Container S) (pls : PostingListSet S)
      (at : lookup a lex.containers ≡ some c) (here : lookup c.tag lex.pl_set_cache ≡ some a)
      (kept : IsConsistent S lex.pl_init pls × (c.size ≡ pls.size)) (text : Text)
      (pl : PostingList S) (has : lookup text pls.list_map ≡ some pl) (generated : Text)
      (new : lookup generated lex.pl_set_cache ≡ none) where
    smaller : Container S
    smaller = record c { pls = some (without S pls text pl); size = c.size - entry_count S pl }

    reduced : Lexicon S
    unfolding smaller
    reduced = record (store S lex a smaller) {
      current_load = lex.current_load -ℤ pos (entry_count S pl);
    }

    smaller-kept :
        IsConsistent S lex.pl_init (without S pls text pl)
        × (smaller.size ≡ (without S pls text pl).size)
    unfolding smaller
    smaller-kept = (
      without-IsConsistent S lex.pl_init pls text pl kept.0 has,
      ap (λ n. n - entry_count S pl) kept.1,
    )

    reduced-IsSound : IsSound S reduced
    unfolding reduced smaller
    reduced-IsSound =
        let s =
          store-IsSound S lex sound a c smaller (without S pls text pl) at here refl refl
            smaller-kept in
        record {
          maker = s.maker;
          distinct = s.distinct;
          cached = s.cached;
          recent = s.recent;
          apart = s.apart;
          fresh = s.fresh;
          owned = s.owned;
        }

    reduced-Keeps : Keeps S lex reduced
    unfolding reduced
    reduced-Keeps = (refl, refl, λ t h. (h, refl))

    reduced-entries :
        (t x : Text) (d : ℕ)
        → entry_at S reduced t x d
          ≡ (if text_eq c.tag t then view S (without S pls text pl) x d else entry_at S lex t x d)
    unfolding reduced smaller
    reduced-entries t x d =
        store-entries S lex sound a c smaller (without S pls text pl) at here refl refl smaller-kept
          t x d

    alone-ok : IsConsistent S reduced.pl_init (alone S reduced.pl_init text pl)
    unfolding reduced
    alone-ok =
        alone-IsConsistent S lex.pl_init text pl
          (All-lookup_text (IsListed S lex.pl_init) text pl pls.list_map kept.0.listed has)

    still_new : lookup generated reduced.pl_set_cache ≡ none
    unfolding reduced
    still_new = new

    grown : Lexicon S
    grown = add_pls S reduced generated (alone S reduced.pl_init text pl)

    grown-IsSound : IsSound S grown
    unfolding grown
    grown-IsSound =
        add_pls-IsSound S reduced reduced-IsSound generated (alone S reduced.pl_init text pl)
          still_new alone-ok

    split_pls-run :
        (lex' : Lexicon S)
        → evict S F can_create grown ≡ some lex'
        → split_pls S F can_create lex a c pls text generated ≡ some (count_create S lex')
    unfolding split_pls grown reduced smaller
    split_pls-run lex' runs =
        rw (transfer_pl-new S lex.pl_init pls text pl has, runs, split_pls) refl

    alone-Fits : (lex' : Lexicon S) → IsEvicted S grown lex' → Fits S lex' generated
    unfolding grown
    alone-Fits lex' e a' c' p here' at' loaded =
        let dst = alone S reduced.pl_init text pl in
        let first : lookup generated lex'.pl_set_cache ≡ some reduced.next =
          ap (lookup generated) e.tags
          ∙ added_tag S reduced reduced-IsSound generated dst still_new alone-ok in
        let address : reduced.next ≡ a' = cc in
        let at-next : lookup reduced.next lex'.containers ≡ some c' =
          ap (λ i. lookup i lex'.containers) address ∙ at' in
        elim (e.fate reduced.next (new_container S generated dst)
          (added_at S reduced reduced-IsSound generated dst still_new alone-ok)) [
            | inr (gone, g, tagged, none_left) ↦
                let same : gone ≡ c' = cc in
                absurd (no_set (sym none_left ∙ ap (λ (k : Container S). k.pls) same ∙ loaded))
            | inl stays ↦
                let same : new_container S generated dst ≡ c' = cc in
                let set : dst ≡ p =
                  alone_set dst p (ap (λ (k : Container S). k.pls) same ∙ loaded) in
                subst (λ q. is_over S lex' c' q ≡ false) set
                  (one_list (ltb lex'.per_pls_load c'.size))
          ]
      where
        no_set : {q : PostingListSet S} → ◌≡◌ {A = Option (PostingListSet S)} none (some q) → ⊥
        no_set h = cc

        alone_set : (q r : PostingListSet S) → (new_container S generated q).pls ≡ some r → q ≡ r
        alone_set q r h = some-injective (unfold new_container in h)

        one_list : (b : Bool) → (b && false) ≡ false
        one_list true = refl
        one_list false = refl

    grown-Keeps : Keeps S lex grown
    unfolding grown
    grown-Keeps =
        Keeps-trans S lex reduced grown reduced-Keeps
          (add_pls-Keeps S reduced generated (alone S reduced.pl_init text pl))

    grown-entries :
        (t x : Text) (d : ℕ)
        → entry_at S grown t x d ≡ (
            if text_eq generated t
            then view S (alone S reduced.pl_init text pl) x d
            else if text_eq c.tag t
            then view S (without S pls text pl) x d
            else entry_at S lex t x d)
    unfolding grown
    grown-entries t x d =
        add_pls-entries S reduced reduced-IsSound generated (alone S reduced.pl_init text pl)
          still_new alone-ok t x d
        ∙ ap (λ o. if text_eq generated t then view S (alone S reduced.pl_init text pl) x d else o)
            (reduced-entries t x d)

    own_entries :
        (t x : Text) (d : ℕ)
        → c.pls ≡ some pls
        → text_eq c.tag t ≡ true
        → entry_at S lex t x d ≡ view S pls x d
    own_entries t x d loaded same =
        entry_at-contents S lex t x d a c
          (ap (λ y. lookup y lex.pl_set_cache) (sym ((text_eq_iff c.tag t).0 same)) ∙ here) at
        ∙ ap (λ o. contents S lex.pl_init lex.disk c.tag o x d) loaded

    moved-entries :
        c.pls ≡ some pls → (d : ℕ) → entry_at S grown generated text d ≡ entry_at S lex c.tag text d
    moved-entries loaded d =
        grown-entries generated text d
        ∙ rw ((text_eq_iff generated generated).1 refl) (
            view-alone S reduced.pl_init text pl text d
            ∙ rw ((text_eq_iff text text).1 refl) (
                sym (ap (λ o. get_entry S (elim o [ none ↦ pls.pl_init | some q ↦ q ]) d) has)
                ∙ sym (own_entries c.tag text d loaded ((text_eq_iff c.tag c.tag).1 refl))))

    apart_text :
        (t x : Text)
        → IsElsewhere c.tag generated text t x
        → (c.tag ≡ t) ⊎ (generated ≡ t)
        → text_eq text x ≡ false
    apart_text t x (inl n) e = elim (Bool-cases (text_eq text x)) [
      | inl same ↦ absurd (n (sym ((text_eq_iff text x).0 same)))
      | inr other ↦ other
    ]
    apart_text t x (inr (n, m)) (inl e) = absurd (n (sym e))
    apart_text t x (inr (n, m)) (inr e) = absurd (m (sym e))

    nothing_new : (t x : Text) (d : ℕ) → generated ≡ t → entry_at S lex t x d ≡ none
    nothing_new t x d e =
        let absent : lookup t lex.pl_set_cache ≡ none =
          ap (λ y. lookup y lex.pl_set_cache) (sym e) ∙ new in
        ground (arith, absent)

    nothing_made : (d : ℕ) → get_entry S reduced.pl_init d ≡ none
    unfolding reduced
    nothing_made d = get_entry-entries S lex.pl_init d ∙ rw sound.maker.bare refl

    left-entries : (d : ℕ) → entry_at S grown c.tag text d ≡ none
    left-entries d =
        grown-entries c.tag text d
        ∙ rw (other_tag, (text_eq_iff c.tag c.tag).1 refl)
            (view-without S pls text pl text d
              ∙ rw ((text_eq_iff text text).1 refl) (
                  ap (λ i. get_entry S i d) kept.0.made
                  ∙ get_entry-entries S lex.pl_init d
                  ∙ rw sound.maker.bare refl))
      where
        other_tag : text_eq generated c.tag ≡ false
        other_tag = ground (arith, text_eq_iff generated c.tag)

    other-entries :
        c.pls ≡ some pls
        → (t x : Text) (d : ℕ) → IsElsewhere c.tag generated text t x
        → entry_at S grown t x d ≡ entry_at S lex t x d
    other-entries loaded t x d elsewhere =
        grown-entries t x d ∙ elim (Bool-cases (text_eq generated t)) [
          | inl same ↦ rw same (
              let t-new = (text_eq_iff generated t).0 same in
              view-alone S reduced.pl_init text pl x d
              ∙ rw (apart_text t x elsewhere (inr t-new)) (nothing_made d)
              ∙ sym (nothing_new t x d t-new))
          | inr other ↦ rw other (elim (Bool-cases (text_eq c.tag t)) [
            | inl own ↦ rw own (
                view-without S pls text pl x d
                ∙ rw (apart_text t x elsewhere (inl ((text_eq_iff c.tag t).0 own))) refl
                ∙ sym (own_entries t x d loaded own))
            | inr away ↦ rw away refl
          ])
        ]

    -- What a split gives: the new tag's set fits, and of the terms only the one that moves has another tag.
    abbrev pub Splits : Option (Lexicon S) → Type 0
    Splits o =
        (lex' : Lexicon S) × (o ≡ some lex')
        × IsSound S lex'
        × Fits S lex' generated
        × Keeps S lex lex'
        × ((d : ℕ) → entry_at S lex' generated text d ≡ entry_at S lex c.tag text d)
        × ((d : ℕ) → entry_at S lex' c.tag text d ≡ none)
        × ((t x : Text) (d : ℕ)
            → IsElsewhere c.tag generated text t x
            → entry_at S lex' t x d ≡ entry_at S lex t x d)

    pub split_pls-Splits :
        c.pls ≡ some pls → Splits (split_pls S F can_create lex a c pls text generated)
    split_pls-Splits loaded =
        let (lex', older, runs, order, within, s, e) =
          evict_lem S F can_create creates grown grown-IsSound in
        (
          count_create S lex',
          split_pls-run lex' runs,
          stats-IsSound S lex' _ s,
          alone-Fits lex' e,
          Keeps-trans S lex grown lex' grown-Keeps (evict-Keeps S grown lex' e),
          λ d. e.entries generated text d ∙ moved-entries loaded d,
          λ d. e.entries c.tag text d ∙ left-entries d,
          λ t x d elsewhere. e.entries t x d ∙ other-entries loaded t x d elsewhere,
        )
