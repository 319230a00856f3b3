-- ===== src/Filters/Phrases/Sound.antt =====
-- What a phrase of a document is: some of its tokens in a row, of one phrase id, without a stop word.
use irengine.Common.{
  ◌≤◌, ℕ, ◌==◌, ==_iff, leb, leb→gt, ◌≡◌, refl, sym, ap, subst, ◌∙◌, ◌⊎◌, true, false, none, List,
  [], ◌∷◌, ◌++◌, append_assoc, length, length-append, All, All-append, Text, Dict, text_key, lookup,
  arith, Option-cases, Bool-cases, inl, inr,
}
use irengine.FileReader.Token.{Token}
use irengine.Filters.Phrases.{
  TerminateReason, non_terminal, diff_phrase_id, stop_word, max_len, ends_phrase,
}
use irengine.Filters.Phrases.Windows.{tail, ended, phrases}

module _ (stopwords : Dict Text ℕ) (phrase_len : ℕ) where
  abbrev pub IsPlain : Token → Type 0
  IsPlain t = lookup t.text stopwords ≡ none

  -- A phrase of length 1 is there at every limit.
  abbrev pub Fits : ℕ → Type 0
  Fits n = (n ≤ 1) ⊎ (n ≤ phrase_len)

  abbrev OfOneId : List Token → Type 0
  OfOneId p = (id : ℕ) × All (λ t. t.phrase_id ≡ id) p

  abbrev IsGood : List Token → Type 0
  IsGood p = All IsPlain p × Fits (length p) × OfOneId p

  abbrev pub IsPhrase : List Token → List Token → Type 0
  IsPhrase document p =
      (1 ≤ length p)
      × All IsPlain p
      × Fits (length p)
      × ((id : ℕ) × All (λ t. t.phrase_id ≡ id) p)
      × ((before : List Token) × (after : List Token) × (document ≡ before ++ (p ++ after)))

  -- What the reason says of the phrase after the token.
  abbrev After : TerminateReason → List Token → Token → Type 0
  After stop_word p t = Unit
  After diff_phrase_id p t = IsGood (t ∷ [])
  After max_len p t = IsGood (tail p ++ t ∷ [])
  After non_terminal p t = IsGood (p ++ t ∷ [])

  alone : (t : Token) → IsPlain t → IsGood (t ∷ [])
  alone t h = ((h, tt), inl (omega arith), (t.phrase_id, (refl, tt)))

  same_id :
      (f : Token) (p : List Token) (t : Token)
      → (f.phrase_id == t.phrase_id) ≡ true
      → (good : IsGood (f ∷ p)) → t.phrase_id ≡ good.2.0
  same_id f p t k (plain, fits, (id, ids)) = sym ((==_iff f.phrase_id t.phrase_id).0 k) ∙ ids.0

  shifted :
      (f : Token) (p : List Token) (t : Token) (good : IsGood (f ∷ p))
      → IsPlain t
      → t.phrase_id ≡ good.2.0
      → IsGood (p ++ t ∷ [])
  shifted f p t (plain, fits, (id, ids)) e k = (
    All-append IsPlain p (t ∷ []) plain.1 (e, tt),
    subst Fits (omega (arith, length-append p (t ∷ []))) fits,
    (id, All-append (λ t. t.phrase_id ≡ id) p (t ∷ []) ids.1 (k, tt)),
  )

  grown :
      (f : Token) (p : List Token) (t : Token) (good : IsGood (f ∷ p))
      → IsPlain t
      → t.phrase_id ≡ good.2.0
      → leb phrase_len (length (f ∷ p)) ≡ false
      → IsGood (f ∷ p ++ t ∷ [])
  grown f p t (plain, fits, (id, ids)) e k m = (
    (plain.0, All-append IsPlain p (t ∷ []) plain.1 (e, tt)),
    inr (omega (arith, length-append p (t ∷ []), leb→gt _ _ m)),
    (id, (ids.0, All-append (λ t. t.phrase_id ≡ id) p (t ∷ []) ids.1 (k, tt))),
  )

  After-ends_phrase :
      (p : List Token) (t : Token) → IsGood p → After (ends_phrase stopwords phrase_len p t) p t
  unfolding ends_phrase
  After-ends_phrase p t good = elim (Option-cases (lookup t.text stopwords)) [
    | inr (n, e) ↦ rw (e, ends_phrase) tt
    | inl e ↦ go p good e
  ]
    where
      go :
          (p : List Token)
          → IsGood p
          → lookup t.text stopwords ≡ none
          → After (ends_phrase stopwords phrase_len p t) p t
      go [] good e = rw (e, ends_phrase) (alone t e)
      go (f ∷ p) good e = elim (Bool-cases (f.phrase_id == t.phrase_id)) [
        | inr k ↦ rw (e, ends_phrase, k) (alone t e)
        | inl k ↦ elim (Bool-cases (leb phrase_len (length (f ∷ p)))) [
          | inl m ↦ rw (e, ends_phrase, k, m) (shifted f p t good e (same_id f p t k good))
          | inr m ↦ rw (e, ends_phrase, k, m) (grown f p t good e (same_id f p t k good) m)
        ]
      ]

  ended_lem :
      (document before phrase tokens : List Token) (rest : List (List Token))
      → document ≡ before ++ (phrase ++ tokens)
      → IsGood phrase
      → All (IsPhrase document) rest
      → All (IsPhrase document) (ended phrase rest)
  ended_lem document before [] tokens rest b good h = h
  ended_lem document before (p ∷ ps) tokens rest b (plain, fits, ids) h =
      ((omega arith, plain, fits, ids, (before, tokens, b)), h)

  after_first :
      (before phrase : List Token) (t : Token) (ts : List Token)
      → (before' : List Token) × (before ++ (phrase ++ t ∷ ts)
          ≡ before' ++ ((tail phrase ++ t ∷ []) ++ ts))
  after_first before [] t ts = (before, refl)
  after_first before (p ∷ ps) t ts = (
    before ++ p ∷ [],
    sym (
        append_assoc before (p ∷ []) ((ps ++ t ∷ []) ++ ts)
        ∙ ap (λ m. before ++ (p ∷ m)) (append_assoc ps (t ∷ []) ts)),
  )

  phrases_from :
      (document before phrase tokens : List Token)
      → document ≡ before ++ (phrase ++ tokens)
      → IsGood phrase
      → All (IsPhrase document) (phrases stopwords phrase_len phrase tokens)
  unfolding phrases
  phrases_from document before phrase [] b good = tt
  phrases_from document before phrase (t ∷ ts) b good =
      go (ends_phrase stopwords phrase_len phrase t) (After-ends_phrase phrase t good)
        (λ before' phrase'. phrases_from document before' phrase' ts)
    where
      go :
          (r : TerminateReason)
          → After r phrase t
          → ((before' phrase' : List Token)
              → document ≡ before' ++ (phrase' ++ ts)
              → IsGood phrase'
              → All (IsPhrase document) (phrases stopwords phrase_len phrase' ts))
          → All (IsPhrase document) (elim r [
            | stop_word ↦ ended phrase (phrases stopwords phrase_len [] ts)
            | diff_phrase_id ↦ ended phrase (phrases stopwords phrase_len (t ∷ []) ts)
            | max_len ↦ ended phrase (phrases stopwords phrase_len (tail phrase ++ t ∷ []) ts)
            | non_terminal ↦ phrases stopwords phrase_len (phrase ++ t ∷ []) ts
          ])
      go stop_word a ih = ended_lem document before phrase (t ∷ ts) _ b good (
          ih (before ++ (phrase ++ t ∷ [])) []
            (b
              ∙ sym (
                  append_assoc before (phrase ++ t ∷ []) ts
                  ∙ ap (λ m. before ++ m) (append_assoc phrase (t ∷ []) ts)))
            (tt, inl (omega arith), (0, tt)))
      go diff_phrase_id a ih =
          ended_lem document before phrase (t ∷ ts) _ b good
            (ih (before ++ phrase) (t ∷ []) (b ∙ sym (append_assoc before phrase (t ∷ ts))) a)
      go max_len a ih =
          let (before', e) = after_first before phrase t ts in
          ended_lem document before phrase (t ∷ ts) _ b good
            (ih before' (tail phrase ++ t ∷ []) (b ∙ e) a)
      go non_terminal a ih =
          ih before (phrase ++ t ∷ [])
            (b ∙ ap (λ m. before ++ m) (sym (append_assoc phrase (t ∷ []) ts))) a

  -- Each phrase of a document has at least one token, and no more than the limit or one; its tokens
  -- stand in the document in a row, none of them a stop word, and all have the same phrase id.
  pub phrases-IsPhrase :
      (document : List Token) → All (IsPhrase document) (phrases stopwords phrase_len [] document)
  phrases-IsPhrase document =
      phrases_from document [] [] document refl (tt, inl (omega arith), (0, tt))
