-- ===== src/Constrained/Lexicon/Terms/Registered.antt =====
-- `Register`: a token of a term reaches the term's list, wherever that list is kept.
use irengine.Common.{
  ℕ, ◌+◌, ◌==◌, ◌≡◌, refl, sym, ap, subst, ◌∙◌, if◌then◌else◌, ◌&&◌, Bool, true, false, Option,
  none, some, List, ◌∷◌, Text, text_eq, text_eq_iff, nat_key, text_key, lookup, Bool-cases, inl,
  inr,
}
use irengine.FileReader.Token.{Token}
use irengine.Indexer.SkipMap.{SkipMap}
use irengine.Indexer.Entry.{Entry}
use irengine.Indexer.PostingList.{PostingList, insert_entry}
use irengine.Indexer.PostingList.Inserted.{added_to}
use irengine.Constrained.PostingListSet.{PostingListSet, list_or_new}
use irengine.Constrained.PostingListSet.RoundTrip.{IsDumpable}
use irengine.Constrained.PostingListSet.Reload.{view}
use irengine.Constrained.PostingListSet.Grown.{grown, grown-view}
use irengine.Constrained.Lexicon.{LoadTests, Container, Lexicon, loaded_at}
use irengine.Constrained.Lexicon.Memory.{retrieve_pls}
use irengine.Constrained.Lexicon.Memory.Keeps.{Keeps, Keeps-trans}
use irengine.Constrained.Lexicon.Memory.Kept.{entry_at, IsSound}
use irengine.Constrained.Lexicon.Memory.Split.{IsElsewhere}
use irengine.Constrained.Lexicon.Memory.Retrieves.{HasList, HasMoved, loaded_entries}
use irengine.Constrained.Lexicon.Memory.Retrieved.{retrieve_pls_lem}
use irengine.Constrained.Lexicon.Terms.{PersistentTerm, register_at, register}
use irengine.Constrained.Lexicon.Terms.RegisterAt.{
  registered-Keeps, kept, registered, register_at-registered, registered-IsSound,
  registered-entries,
}

module _ (S : SkipMap Entry) where
  -- The result of `Register`: the term counts the token, its entry of the token's document has the
  -- token's position, and no other term has another entry than before.
  abbrev pub Registers :
      Lexicon S → PersistentTerm → Text → Token → Option (Lexicon S × PersistentTerm) → Type 0
  Registers lex t generated token o =
      (lex' : Lexicon S) × (t' : PersistentTerm) × (o ≡ some (lex', t'))
      × ((t'.text ≡ t.text) × (t'.tf ≡ t.tf + 1))
      × HasMoved S lex' t.text t.data_tag t'.data_tag generated
      × Keeps S lex lex'
      × IsSound S lex'
      × ((d : ℕ)
          → entry_at S lex' t'.data_tag t.text d ≡ (
              if token.doc_id == d
              then some (
                  added_to lex.pl_init.is_positional token
                    (entry_at S lex t.data_tag t.text token.doc_id))
              else entry_at S lex t.data_tag t.text d))
      × ((tag x : Text) (d : ℕ)
          → IsElsewhere t.data_tag t'.data_tag t.text tag x
          → entry_at S lex' tag x d ≡ entry_at S lex tag x d)

  module _ (F : LoadTests) (can_create : Text → Bool)
      (creates : (t : Text) → can_create t ≡ true) where
    register-found :
        (lex lex' : Lexicon S) (t : PersistentTerm) (generated : List Text) (token : Token) (a : ℕ)
        (tag' : Text) (c : Container S) (pls : PostingListSet S)
        → retrieve_pls S F can_create generated lex t.text t.data_tag ≡ some (lex', a, tag')
        → lookup a lex'.containers ≡ some c
        → c.pls ≡ some pls
        → register S F can_create generated lex t token
          ≡ some
              (register_at S lex' a c pls t.text token, record t { tf = t.tf + 1; data_tag = tag' })
    register-found lex lex' t generated token a tag' c pls e at loaded =
        opened
        ∙ ap
            (λ o. elim o [
              | none ↦ none
              | some p ↦ some (
                register_at S lex' a c p t.text token,
                record t { tf = t.tf + 1; data_tag = tag' },
              )
            ])
            loaded
      where
        opened : register S F can_create generated lex t token ≡ elim c.pls [
          | none ↦ none
          | some p ↦
              some
                (register_at S lex' a c p t.text token, record t { tf = t.tf + 1; data_tag = tag' })
        ]
        opened = unfold register in rw (e, at, register) refl

    module _ (lex lex' : Lexicon S) (t : PersistentTerm) (generated : Text) (more : List Text)
        (token : Token) (a : ℕ) (tag' : Text) (pls : PostingListSet S) (c : Container S)
        (e : retrieve_pls S F can_create (generated ∷ more) lex t.text t.data_tag
          ≡ some (lex', a, tag'))
        (tags : HasMoved S lex' t.text t.data_tag tag' generated)
        (at : lookup a lex'.containers ≡ some c) (loaded : c.pls ≡ some pls)
        (here : lookup tag' lex'.pl_set_cache ≡ some a) (s' : IsSound S lex')
        (keeps : Keeps S lex lex')
        (own : (d : ℕ) → view S pls t.text d ≡ entry_at S lex t.data_tag t.text d)
        (others : (y x : Text) (d : ℕ)
          → IsElsewhere t.data_tag tag' t.text y x
          → entry_at S lex' y x d ≡ entry_at S lex y x d)
        (line : IsDumpable (lex.pl_init.entry_factory 0) (
          t.text,
          added_to lex.pl_init.is_positional token (entry_at S lex t.data_tag t.text token.doc_id),
        )) where
      line' :
          IsDumpable
            (lex'.pl_init.entry_factory 0)
            (t.text, added_to lex'.pl_init.is_positional token (view S pls t.text token.doc_id))
      line' =
          subst
            (λ i.
              IsDumpable (i.entry_factory 0)
                (t.text, added_to i.is_positional token (view S pls t.text token.doc_id)))
            (sym keeps.0)
            (subst
              (λ o.
                IsDumpable (lex.pl_init.entry_factory 0)
                  (t.text, added_to lex.pl_init.is_positional token o))
              (sym (own token.doc_id)) line)

      abbrev is_new : Bool
      is_new = (insert_entry S (list_or_new S pls t.text) token).1

      final : Lexicon S
      final = registered S lex' s' a c pls at loaded t.text token line' is_new

      tagged : c.tag ≡ tag'
      tagged =
          let (c0, at0, tagged0, k) = s'.cached tag' a here in
          let same : c0 ≡ c = cc in ap (λ (k : Container S). k.tag) (sym same) ∙ tagged0

      final-entries :
          (y x : Text) (d : ℕ)
          → entry_at S final y x d ≡ (
              if text_eq tag' y
              then view S (grown S pls t.text token) x d
              else entry_at S lex' y x d)
      unfolding final
      final-entries y x d =
          registered-entries S lex' s' a c pls at loaded t.text token line' is_new refl y x d
          ∙ ap
              (λ z.
                if text_eq z y
                then view S (grown S pls t.text token) x d
                else entry_at S lex' y x d)
              tagged

      set_view :
          (x : Text) (d : ℕ)
          → view S (grown S pls t.text token) x d ≡ (
              if text_eq t.text x && token.doc_id == d
              then some (added_to lex'.pl_init.is_positional token (view S pls t.text token.doc_id))
              else view S pls x d)
      set_view =
          grown-view S lex'.pl_init s'.maker pls
            (kept S lex' s' a c pls at loaded t.text token line').0 t.text token line'

      own_after :
          (d : ℕ)
          → entry_at S final tag' t.text d ≡ (
              if token.doc_id == d
              then some (
                  added_to lex.pl_init.is_positional token
                    (entry_at S lex t.data_tag t.text token.doc_id))
              else entry_at S lex t.data_tag t.text d)
      own_after d =
          final-entries tag' t.text d
          ∙ rw ((text_eq_iff tag' tag').1 refl) (
              set_view t.text d
              ∙ rw ((text_eq_iff t.text t.text).1 refl) (
                  ap
                    (λ (i : PostingList S).
                      if token.doc_id == d
                      then some (added_to i.is_positional token (view S pls t.text token.doc_id))
                      else view S pls t.text d)
                    keeps.0
                  ∙ ap
                      (λ o.
                        if token.doc_id == d
                        then some (added_to lex.pl_init.is_positional token o)
                        else view S pls t.text d)
                      (own token.doc_id)
                  ∙ ap
                      (λ o.
                        if token.doc_id == d
                        then some (
                            added_to lex.pl_init.is_positional token
                              (entry_at S lex t.data_tag t.text token.doc_id))
                        else o)
                      (own d)))

      others_after :
          (y x : Text) (d : ℕ)
          → IsElsewhere t.data_tag tag' t.text y x
          → entry_at S final y x d ≡ entry_at S lex y x d
      others_after y x d elsewhere = final-entries y x d ∙ elim (Bool-cases (text_eq tag' y)) [
        | inr away ↦ rw away (others y x d elsewhere)
        | inl same ↦ rw same (
            set_view x d
            ∙ rw (other_text ((text_eq_iff tag' y).0 same) elsewhere) (
                loaded_entries S lex' a y x d pls in_memory
                  (ap (λ z. lookup z lex'.pl_set_cache) (sym ((text_eq_iff tag' y).0 same)) ∙ here)
                ∙ others y x d elsewhere))
      ]
        where
          in_memory : loaded_at S lex' a ≡ some pls
          in_memory = ap (λ o. elim o [ none ↦ none | some k ↦ k.pls ]) at ∙ loaded

          other_text : tag' ≡ y → IsElsewhere t.data_tag tag' t.text y x → text_eq t.text x ≡ false
          other_text h (inl n) = elim (Bool-cases (text_eq t.text x)) [
            | inl same ↦ absurd (n (sym ((text_eq_iff t.text x).0 same)))
            | inr other ↦ other
          ]
          other_text h (inr (n, m)) = absurd (m (sym h))

      tags_after : HasMoved S final t.text t.data_tag tag' generated
      tags_after = elim tags [
        | inl same ↦ inl same
        | inr (fresh, moved, gone) ↦
            inr (fresh, moved, λ d. final-entries t.data_tag t.text d ∙ rw moved (gone d))
      ]

      init_after : Keeps S lex final
      unfolding final
      init_after =
          Keeps-trans S lex lex' final keeps
            (registered-Keeps S lex' s' a c pls at loaded t.text token line' is_new)

      pub found-Registers :
          Registers lex t generated token (register S F can_create (generated ∷ more) lex t token)
      unfolding final
      found-Registers = (
        final,
        record t { tf = t.tf + 1; data_tag = tag' },
        register-found lex lex' t (generated ∷ more) token a tag' c pls e at loaded
            ∙ ap (λ l. some (l, record t { tf = t.tf + 1; data_tag = tag' }))
                (register_at-registered S lex' s' a c pls at loaded t.text token line'),
        (refl, refl),
        tags_after,
        init_after,
        registered-IsSound S lex' s' a c pls at loaded t.text token line' is_new refl,
        own_after,
        others_after,
      )

    -- `Register` of a token in a sound lexicon, with one new tag at hand, does not panic. The term counts
    -- the token, and its entry of the token's document gets the token's position, or is a new one that has
    -- it; its other entries stay, and so do all entries of the other terms under all tags, in
    -- memory or on disk. The lexicon stays sound. Files can be created, the new tag is not in use, a set that is
    -- to be split has a list of the term, and a line can hold the changed entry.
    pub register_lem :
        (lex : Lexicon S) (t : PersistentTerm) (generated : Text) (more : List Text) (token : Token)
        → IsSound S lex
        → lookup generated lex.pl_set_cache ≡ none
        → HasList S lex t.text t.data_tag
        → IsDumpable (lex.pl_init.entry_factory 0) (
          t.text,
          added_to lex.pl_init.is_positional token (entry_at S lex t.data_tag t.text token.doc_id),
        )
        → Registers lex t generated token (register S F can_create (generated ∷ more) lex t token)
    register_lem lex t generated more token s new has line =
        let (lex', a, tag', pls, e, tags, in_memory, here, s', init, own, others) =
          retrieve_pls_lem S F can_create creates lex t.text t.data_tag generated more s new has in
        let (c, at, tagged, k) = s'.cached tag' a here in
        let loaded : c.pls ≡ some pls =
          sym (ap (λ o. elim o [ none ↦ none | some j ↦ j.pls ]) at) ∙ in_memory in
        found-Registers lex lex' t generated more token a tag' pls c e tags at loaded here s' init
          own others line
