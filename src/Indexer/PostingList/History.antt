-- ===== src/Indexer/PostingList/History.antt =====
-- A posting list against the occurrences that were inserted into it.
use irengine.Common.{
  ℕ, ◌==◌, ==_iff, if◌then◌else◌, ◌≡◌, refl, ap, ◌∙◌, Bool, true, false, Option, none, some, List,
  [], ◌∷◌, ◌++◌, append_assoc, append-nil, arith, length, length-append, Bool-cases, inl, inr,
  nat_key, lookup,
}
use irengine.FileReader.Token.{Token}
use irengine.Indexer.SkipMap.{SkipMap, get-set}
use irengine.Indexer.Entry.{Entry, basic, positional, doc_id, add_position, sort_ints}
use irengine.Indexer.Entry.Sorting.{sort_ints_again}
use irengine.Indexer.PostingList.{
  PostingList, create_basic, create_positional, get_entry, insert_complete_entry, insert_found,
  insert_raw_entry, insert_entry,
}
use irengine.Indexer.PostingList.Valid.{
  IsValid, Makes, doc_id-added, insert_entry-IsValid, create-IsValid,
}

-- The positions of a document's tokens, as they came.
abbrev pub occurrences : ℕ → List Token → List ℕ
occurrences d [] = []
occurrences d (t ∷ ts) =
    let rest = occurrences d ts in if t.doc_id == d then t.position ∷ rest else rest

-- What a list without an index would hold of a document with these occurrences.
abbrev pub summary : Bool → ℕ → List ℕ → Option Entry
summary flag d [] = none
summary true d (p ∷ ps) = some (positional d (sort_ints (p ∷ ps)))
summary false d (p ∷ ps) = some (basic d (length (p ∷ ps)))

occurrences-append :
    (d : ℕ) (ts us : List Token) → occurrences d (ts ++ us) ≡ occurrences d ts ++ occurrences d us
occurrences-append d [] us = refl
occurrences-append d (t ∷ ts) us = ground (arith, occurrences-append d ts us)

abbrev entry_or : Option Entry → Entry → Entry
entry_or none e = e
entry_or (some e) e' = e

-- One more occurrence of the document.
summary-snoc :
    (flag : Bool) (d p : ℕ) (ps : List ℕ) (e : Entry)
    → Makes flag e d
    → some (add_position (entry_or (summary flag d ps) e) p) ≡ summary flag d (ps ++ p ∷ [])
unfolding add_position
summary-snoc true d p [] e h = rw h refl
summary-snoc false d p [] e h = rw h refl
summary-snoc true d p (q ∷ ps) e h = ap (λ l. some (positional d l)) (sort_ints_again p (q ∷ ps))
summary-snoc false d p (q ∷ ps) e h =
    ap (λ n. some (basic d n)) (omega (arith, length-append (q ∷ ps) (p ∷ [])))

module _ (S : SkipMap Entry) where
  open S use {get, new_custom_map, get-entries, entries-new}

  unfoldable pub insert_all : PostingList S → List Token → PostingList S
  insert_all pl [] = pl
  insert_all pl (t ∷ ts) = insert_all (insert_entry S pl t).0 ts

  found_step :
      (pl : PostingList S) (k p d : ℕ) (o : Option Entry)
      → doc_id (add_position (pl.entry_factory k) p) ≡ k
      → get_entry S (insert_found S pl k p o).0 d ≡ (
          if k == d
          then some (add_position (entry_or o (pl.entry_factory k)) p)
          else get_entry S pl d)
  unfolding insert_found get_entry insert_complete_entry
  found_step pl k p d none h = rw h (get-set S pl.list k d _)
  found_step pl k p d (some e) h = get-set S pl.list k d (add_position e p)

  pub record Tracks (pl : PostingList S) (flag : Bool) (h : List Token) : Type 0 where
    pub valid : IsValid S pl
    pub kind : pl.is_positional ≡ flag
    pub view : (d : ℕ) → get_entry S pl d ≡ summary flag d (occurrences d h)

  found_kind :
      (pl : PostingList S) (k p : ℕ) (o : Option Entry)
      → (insert_found S pl k p o).0.is_positional ≡ pl.is_positional
  unfolding insert_found insert_complete_entry
  found_kind pl k p none = refl
  found_kind pl k p (some e) = refl

  insert_entry_step :
      (pl : PostingList S) (t : Token) (d : ℕ)
      → IsValid S pl
      → get_entry S (insert_entry S pl t).0 d ≡ (
          if t.doc_id == d
          then some (
              add_position
                (entry_or (get_entry S pl t.doc_id) (pl.entry_factory t.doc_id))
                t.position)
          else get_entry S pl d)
  unfolding insert_entry insert_raw_entry
  insert_entry_step pl t d v = found_step pl t.doc_id t.position d (get_entry S pl t.doc_id) (
      doc_id-added pl.is_positional t.doc_id t.position (pl.entry_factory t.doc_id)
        (v.makes t.doc_id))

  summary_step :
      (flag : Bool) (t : Token) (d : ℕ) (h : List Token) (e : Entry)
      → Makes flag e t.doc_id
      → (if t.doc_id == d
          then some (
              add_position (entry_or (summary flag t.doc_id (occurrences t.doc_id h)) e) t.position)
          else summary flag d (occurrences d h))
        ≡ summary flag d (occurrences d (h ++ t ∷ []))
  summary_step flag t d h e m =
      rw (occurrences-append d h (t ∷ [])) (elim (Bool-cases (t.doc_id == d)) [
        | inl same ↦
            let eq : t.doc_id ≡ d = (==_iff t.doc_id d).0 same in
            rw same (rw (← eq) (summary-snoc flag t.doc_id t.position (occurrences t.doc_id h) e m))
        | inr other ↦ rw (other, append-nil)
      ])

  Tracks-insert_entry :
      (pl : PostingList S) (flag : Bool) (h : List Token) (t : Token)
      → Tracks pl flag h
      → Tracks (insert_entry S pl t).0 flag (h ++ t ∷ [])
  Tracks-insert_entry pl flag h t tr = record {
    valid = insert_entry-IsValid S pl t tr.valid;
    kind =
        unfold insert_entry insert_raw_entry in
        found_kind pl t.doc_id t.position (get_entry S pl t.doc_id) ∙ tr.kind;
    view = λ d.
        insert_entry_step pl t d tr.valid
        ∙ rw (tr.view t.doc_id, tr.view d)
            (summary_step flag t d h (pl.entry_factory t.doc_id)
              (rw (← tr.kind) (tr.valid.makes t.doc_id)));
  }

  Tracks-insert_all :
      (pl : PostingList S) (flag : Bool) (h ts : List Token)
      → Tracks pl flag h
      → Tracks (insert_all pl ts) flag (h ++ ts)
  unfolding insert_all
  Tracks-insert_all pl flag h [] tr = rw append-nil tr
  Tracks-insert_all pl flag h (t ∷ ts) tr = rw (← append_assoc h (t ∷ []) ts) (
      Tracks-insert_all (insert_entry S pl t).0 flag (h ++ t ∷ []) ts
        (Tracks-insert_entry pl flag h t tr))

  get-new : (d : ℕ) → get new_custom_map d ≡ none
  get-new d = get-entries new_custom_map d ∙ ap (lookup d) entries-new

  -- A positional list holds each document's positions in order, and no other document.
  pub insert_all-positional :
      (ts : List Token) → Tracks (insert_all (create_positional S) ts) true ts
  unfolding create_positional get_entry
  insert_all-positional ts =
      Tracks-insert_all (create_positional S) true [] ts
        (record { valid = (create-IsValid S).1; kind = refl; view = get-new })

  -- A basic list counts each document's occurrences.
  pub insert_all-basic : (ts : List Token) → Tracks (insert_all (create_basic S) ts) false ts
  unfolding create_basic get_entry
  insert_all-basic ts =
      Tracks-insert_all (create_basic S) false [] ts
        (record { valid = (create-IsValid S).0; kind = refl; view = get-new })
