-- ===== src/Indexer/PostingList/Valid.antt =====
-- What holds of a posting list between two calls, and that the insertions keep it.
use irengine.Common.{
  ℕ, ◌==◌, if◌then◌else◌, ◌<◌, ◌≡◌, refl, sym, ◌∙◌, Bool, true, false, Option, none, some, [], ◌∷◌,
  ◌++◌, arith, length, length-append, All, IsSorted, nat_key, lookup,
}
use irengine.FileReader.Token.{Token}
use irengine.Indexer.Ordered.{
  length-put_entry_old, length-put_entry_new, All-put_entry_of, All-lookup,
}
use irengine.Indexer.SkipMap.{SkipMap, get-set}
use irengine.Indexer.Entry.{
  Entry, basic, positional, new_basic_entry, new_positional_entry, doc_id, add_position,
}
use irengine.Indexer.Entry.Sorting.{sort_ints-IsSorted, length-sort_ints}
use irengine.Indexer.PostingList.{
  PostingList, create_basic, create_positional, get_entry, insert_complete_entry, insert_found,
  insert_raw_entry, insert_entry,
}

-- An entry under its document: of the list's kind, with an occurrence, and in order.
abbrev pub IsEntry : Bool → ℕ × Entry → Type 0
IsEntry flag (k, basic d n) = (flag ≡ false) × (d ≡ k) × (0 < n)
IsEntry flag (k, positional d ps) = (flag ≡ true) × (d ≡ k) × (0 < length ps) × IsSorted ps

-- The factory makes entries of the list's kind.
abbrev pub Makes : Bool → Entry → ℕ → Type 0
Makes true e d = e ≡ positional d []
Makes false e d = e ≡ basic d 0

added-IsEntry :
    (flag : Bool) (d p : ℕ) (e : Entry) → Makes flag e d → IsEntry flag (d, add_position e p)
unfolding add_position
added-IsEntry true d p e h = rw h (refl, refl, omega arith, (tt, tt))
added-IsEntry false d p e h = rw h (refl, refl, omega arith)

pub doc_id-added :
    (flag : Bool) (d p : ℕ) (e : Entry) → Makes flag e d → doc_id (add_position e p) ≡ d
unfolding doc_id add_position
doc_id-added true d p e h = rw h
doc_id-added false d p e h = rw h

more-IsEntry :
    (flag : Bool) (d p : ℕ) (e : Entry) → IsEntry flag (d, e) → IsEntry flag (d, add_position e p)
unfolding add_position
more-IsEntry flag d p (basic d' n) (f, k, h) = (f, k, omega arith)
more-IsEntry flag d p (positional d' ps) (f, k, h, s) = (
  f,
  k,
  omega (arith, length-sort_ints (ps ++ p ∷ []), length-append ps (p ∷ [])),
  sort_ints-IsSorted (ps ++ p ∷ []),
)

module _ (S : SkipMap Entry) where
  open S use {
    Map, new_custom_map, get, set, entries, entries-new, entries-IsOrdered, get-entries,
    entries-set,
  }

  pub record IsValid (pl : PostingList S) : Type 0 where
    pub counted : pl.count ≡ length (entries pl.list)
    pub held : All (IsEntry pl.is_positional) (entries pl.list)
    pub makes : (d : ℕ) → Makes pl.is_positional (pl.entry_factory d) d

  pub create-IsValid : IsValid (create_basic S) × IsValid (create_positional S)
  unfolding create_basic create_positional new_basic_entry new_positional_entry
  create-IsValid = (
    record { counted = rw entries-new; held = rw entries-new tt; makes = λ d. refl },
    record { counted = rw entries-new; held = rw entries-new tt; makes = λ d. refl },
  )

  -- A complete entry of a document that the list does not have.
  pub insert_complete_entry-IsValid :
      (pl : PostingList S) (k : ℕ) (e : Entry)
      → IsValid pl
      → doc_id e ≡ k
      → get_entry S pl k ≡ none
      → IsEntry pl.is_positional (k, e)
      → IsValid (insert_complete_entry S pl e)
  unfolding insert_complete_entry get_entry
  insert_complete_entry-IsValid pl k e v here new h = rw here (record {
    counted =
        rw
          (
            entries-set,
            length-put_entry_new k e (entries pl.list) (sym (get-entries pl.list k) ∙ new),
          )
          (omega (arith, v.counted));
    held =
        rw entries-set (All-put_entry_of (IsEntry pl.is_positional) k e (entries pl.list) h v.held);
    makes = v.makes;
  })

  insert_found-IsValid :
      (pl : PostingList S) (d p : ℕ) (o : Option Entry)
      → IsValid pl
      → get_entry S pl d ≡ o
      → IsValid (insert_found S pl d p o).0
  unfolding insert_found get_entry
  insert_found-IsValid pl d p none v h =
      insert_complete_entry-IsValid pl d (add_position (pl.entry_factory d) p) v
        (doc_id-added pl.is_positional d p (pl.entry_factory d) (v.makes d)) h
        (added-IsEntry pl.is_positional d p (pl.entry_factory d) (v.makes d))
  insert_found-IsValid pl d p (some e) v h =
      let at : lookup d (entries pl.list) ≡ some e = sym (get-entries pl.list d) ∙ h in
      let ok = All-lookup (IsEntry pl.is_positional) d e (entries pl.list) v.held at in
      record {
        counted =
            rw
              (
                entries-set,
                length-put_entry_old d (add_position e p) e (entries pl.list)
                    (entries-IsOrdered pl.list) at,
              )
              v.counted;
        held = rw entries-set (
            All-put_entry_of (IsEntry pl.is_positional) d (add_position e p) (entries pl.list)
              (more-IsEntry pl.is_positional d p e ok) v.held);
        makes = v.makes;
      }

  -- An occurrence keeps the list valid.
  pub insert_entry-IsValid :
      (pl : PostingList S) (t : Token) → IsValid pl → IsValid (insert_entry S pl t).0
  unfolding insert_entry insert_raw_entry
  insert_entry-IsValid pl t v =
      insert_found-IsValid pl t.doc_id t.position (get_entry S pl t.doc_id) v refl

  -- What a list has after a complete entry.
  pub get_entry-insert_complete_entry :
      (pl : PostingList S) (e : Entry) (d : ℕ)
      → get_entry S (insert_complete_entry S pl e) d
        ≡ (if doc_id e == d then some e else get_entry S pl d)
  unfolding get_entry insert_complete_entry
  get_entry-insert_complete_entry pl e d = get-set S pl.list (doc_id e) d e

  pub get_entry-entries :
      (pl : PostingList S) (d : ℕ) → get_entry S pl d ≡ lookup d (entries pl.list)
  unfolding get_entry
  get_entry-entries pl d = get-entries pl.list d
