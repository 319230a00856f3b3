-- ===== src/Indexer/SingleTerm/Documents.antt =====
-- A document in the index: what the inserter does with the tokens of one document.
use irengine.Common.{
  ℕ, ◌+◌, ◌==◌, ==_iff, ltb, if◌then◌else◌, ◌≡◌, refl, ap, ◌∙◌, true, false, some, List, [], ◌∷◌,
  ◌++◌, All, length, arith, Dict, nat_key, text_key, lookup, insert, lookup-insert, Option-cases,
  Bool-cases, inl, inr,
}
use irengine.FileReader.Token.{Token, null_token, type_eq}
use irengine.Indexer.SkipMap.{SkipMap}
use irengine.Indexer.Entry.{Entry}
use irengine.Indexer.TermMap.{TermMap}
use irengine.Indexer.PostingList.{PostingList}
use irengine.Indexer.Lexicon.{Term, insert_token}
use irengine.Indexer.Lexicon.Terms.{insert_tokens}
use irengine.Indexer.SingleTerm.{
  StoredDocInfo, Weights, tf_d, df, SingleTermIndex, update_info, inserter_step, inserter,
}

module _ (S : SkipMap Entry) (T : TermMap (Term S)) (W : Weights) where
  open W use {Weight, weight, is_inf}

  -- Each token makes or finds a term.
  insert_token-some :
      (create : PostingList S) (lex : T.Trie) (u : Token)
      → type_eq u.type null_token ≡ false
      → (term : Term S) × ((insert_token S T create lex u).1 ≡ some term)
  unfolding insert_token
  insert_token-some create lex u w = elim (Option-cases (T.find u.text lex)) [
    | inl e ↦ rw (w, e, insert_token) (_, refl)
    | inr (term, e) ↦ rw (w, e, insert_token) (_, refl)
  ]

  -- All weights are finite.
  abbrev pub AreFinite : Type 0
  AreFinite = (tf df n : ℕ) → is_inf (weight tf df n) ≡ false

  update_info-some :
      (n : ℕ) (term : Term S) (info : StoredDocInfo Weight)
      → AreFinite
      → (info' : StoredDocInfo Weight) × (update_info S T W n term info ≡ some info')
        × (info'.human_id ≡ info.human_id)
        × (info'.max_tf ≡ (if ltb info.max_tf term.tf then term.tf else info.max_tf))
  unfolding update_info
  update_info-some n term info f = rw (f (tf_d S term info.id) (df S term) n) (_, refl, refl, refl)

  module _ (d : ℕ) where
    abbrev pub IsWordOf : Token → Type 0
    IsWordOf u = (type_eq u.type null_token ≡ false) × (u.doc_id ≡ d)

    -- The index after words of the document.
    abbrev after_words :
        SingleTermIndex S T W → List Token → Dict ℕ (StoredDocInfo Weight) → SingleTermIndex S T W
    after_words t us map = record t {
      lexicon = insert_tokens S T t.pl_init t.lexicon us;
      document_map = map;
      termcounter = t.termcounter + length us;
    }

    -- The documents' statistics change for this document alone, which keeps its name.
    abbrev Changes :
        Dict ℕ (StoredDocInfo Weight)
        → StoredDocInfo Weight
        → Dict ℕ (StoredDocInfo Weight)
        → Type 0
    Changes map info map' =
        ((info' : StoredDocInfo Weight) × (lookup d map' ≡ some info')
          × (info'.human_id ≡ info.human_id))
        × ((j : ℕ) → (d == j) ≡ false → lookup j map' ≡ lookup j map)

    inserter_step-word :
        (t : SingleTermIndex S T W) (info : StoredDocInfo Weight) (u : Token)
        → AreFinite
        → IsWordOf u
        → lookup d t.document_map ≡ some info
        → (map : Dict ℕ (StoredDocInfo Weight)) × (inserter_step S T W t u
            ≡ some (after_words t (u ∷ []) map))
          × Changes t.document_map info map
    unfolding inserter_step insert_tokens
    inserter_step-word t info u f (w, same) l =
        let (term, e) = insert_token-some t.pl_init t.lexicon u w in
        let (info', k, name, max) = update_info-some (t.document_count + 1) term info f in
        (
          insert u.doc_id info' t.document_map,
          rw ((ap (λ i. lookup i t.document_map) same ∙ l), w, e, k, inserter_step) refl,
          (
            (
              info',
              lookup-insert u.doc_id d info' t.document_map ∙ rw ((==_iff u.doc_id d).1 same) refl,
              name,
            ),
            λ j other.
                lookup-insert u.doc_id j info' t.document_map
                ∙ rw (ap (λ i. i == j) same ∙ other) refl,
          ),
        )

    Changes-trans :
        (m : Dict ℕ (StoredDocInfo Weight)) (i : StoredDocInfo Weight)
        (m' : Dict ℕ (StoredDocInfo Weight)) (i' : StoredDocInfo Weight)
        (m'' : Dict ℕ (StoredDocInfo Weight))
        → i'.human_id ≡ i.human_id
        → ((j : ℕ) → (d == j) ≡ false → lookup j m' ≡ lookup j m)
        → Changes m' i' m''
        → Changes m i m''
    Changes-trans m i m' i' m'' name others ((i'', l, name'), others') =
        ((i'', l, name' ∙ name), λ j other. others' j other ∙ others j other)

    inserter-words :
        (t : SingleTermIndex S T W) (info : StoredDocInfo Weight) (us rest : List Token)
        → AreFinite
        → All IsWordOf us
        → lookup d t.document_map ≡ some info
        → (map : Dict ℕ (StoredDocInfo Weight)) × (inserter S T W t (us ++ rest)
            ≡ inserter S T W (after_words t us map) rest)
          × Changes t.document_map info map
    unfolding inserter insert_tokens
    inserter-words t info [] rest f h l = (
      t.document_map,
      ap (λ n. inserter S T W (record t { termcounter = n }) rest) (omega arith),
      ((info, l, refl), λ j other. refl),
    )
    inserter-words t info (u ∷ us) rest f (w, h) l =
        let (map, s, ((info', l', name), others)) = inserter_step-word t info u f w l in
        let (map', r, changes) = inserter-words (after_words t (u ∷ []) map) info' us rest f h l' in
        (
          map',
          rw (s, inserter)
              (r
                ∙ ap
                    (λ n.
                      inserter S T W (record (after_words t (u ∷ us) map') { termcounter = n })
                        rest)
                    (omega arith)),
          Changes-trans t.document_map info map info' map' name others changes,
        )

    counted_only :
        (m map : Dict ℕ (StoredDocInfo Weight)) (counted : StoredDocInfo Weight) (e : ℕ)
        → e ≡ d
        → ((j : ℕ) → (d == j) ≡ false → lookup j map ≡ lookup j m)
        → (j : ℕ) → lookup j (insert e counted map) ≡ (if d == j then some counted else lookup j m)
    counted_only m map counted e same others j =
        lookup-insert e j counted map
        ∙ rw same (elim (Bool-cases (d == j)) [
          | inl this ↦ rw this refl
          | inr other ↦ rw other (others j other)
        ])

    -- What the index is after the tokens of the document and its end.
    abbrev pub IsIndexed :
        SingleTermIndex S T W → StoredDocInfo Weight → List Token → SingleTermIndex S T W → Type 0
    IsIndexed t info us t' =
        (t'.lexicon ≡ insert_tokens S T t.pl_init t.lexicon us)
        × (t'.document_count ≡ t.document_count + 1)
        × (t'.termcounter ≡ 0)
        × ((info' : StoredDocInfo Weight) × (info'.term_count ≡ t.termcounter + length us)
            × (info'.human_id ≡ info.human_id)
            × ((j : ℕ)
                → lookup j t'.document_map
                  ≡ (if d == j then some info' else lookup j t.document_map)))

    -- The tokens of a stored document and its end, with finite weights: the inserter does not panic, the
    -- lexicon gets all of the tokens, one more document is counted, the document has the number of its
    -- terms and keeps its name, no other document changes, and the next document is counted from 0.
    pub inserter_lem :
        (t : SingleTermIndex S T W) (info : StoredDocInfo Weight) (us : List Token) (end : Token)
        → AreFinite
        → All IsWordOf us
        → end.doc_id ≡ d
        → type_eq end.type null_token ≡ true
        → lookup d t.document_map ≡ some info
        → (t' : SingleTermIndex S T W) × (inserter S T W t (us ++ end ∷ []) ≡ some t')
          × IsIndexed t info us t'
    unfolding inserter inserter_step
    inserter_lem t info us end f h same ends l =
        let (map, r, ((info', l', name), others)) = inserter-words t info us (end ∷ []) f h l in
        let counted : StoredDocInfo Weight = record info' {
          term_count = t.termcounter + length us;
        } in
        let t' : SingleTermIndex S T W = record t {
          lexicon = insert_tokens S T t.pl_init t.lexicon us;
          document_count = t.document_count + 1;
          document_map = insert end.doc_id counted map;
          termcounter = 0;
        } in
        (
          t',
          r ∙ rw ((ap (λ i. lookup i map) same ∙ l'), ends, inserter, inserter_step) refl,
          (
            refl,
            refl,
            refl,
            (counted, refl, name, counted_only t.document_map map counted end.doc_id same others),
          ),
        )
