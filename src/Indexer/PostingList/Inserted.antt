-- ===== src/Indexer/PostingList/Inserted.antt =====
-- What one insertion does to a posting list.
use irengine.Common.{
  ℕ, ◌+◌, ◌==◌, if◌then◌else◌, ◌≡◌, refl, ap, ◌∙◌, Bool, true, false, Option, none, some, [],
  nat_key,
}
use irengine.FileReader.Token.{Token}
use irengine.Indexer.Ordered.{put_entry}
use irengine.Indexer.SkipMap.{SkipMap, get-set}
use irengine.Indexer.Entry.{Entry, basic, positional, doc_id, add_position}
use irengine.Indexer.PostingList.{
  PostingList, entry_count, get_entry, insert_complete_entry, insert_found, insert_raw_entry,
  insert_entry,
}
use irengine.Indexer.PostingList.Valid.{IsValid, Makes, doc_id-added}

-- An entry of a kind without an occurrence.
abbrev pub bare_entry : Bool → ℕ → Entry
bare_entry true d = positional d []
bare_entry false d = basic d 0

Makes-bare_entry : (flag : Bool) (e : Entry) (d : ℕ) → Makes flag e d → e ≡ bare_entry flag d
Makes-bare_entry true e d h = h
Makes-bare_entry false e d h = h

-- The entry of the token's document behind the insertion, from the one before it.
abbrev pub added_to : Bool → Token → Option Entry → Entry
added_to flag t none = add_position (bare_entry flag t.doc_id) t.position
added_to flag t (some e) = add_position e t.position

module _ (S : SkipMap Entry) where
  open S use {entries, entries-set, get-entries}

  pub insert_entry_parts :
      (pl : PostingList S) (t : Token)
      → IsValid S pl
      → (entries (insert_entry S pl t).0.list
          ≡ put_entry t.doc_id
              (added_to pl.is_positional t (get_entry S pl t.doc_id))
              (entries pl.list))
        × ((insert_entry S pl t).0.is_positional ≡ pl.is_positional)
        × (entry_count S (insert_entry S pl t).0
            ≡ (if (insert_entry S pl t).1 then entry_count S pl + 1 else entry_count S pl))
        × ((d : ℕ)
            → get_entry S (insert_entry S pl t).0 d ≡ (
                if t.doc_id == d
                then some (added_to pl.is_positional t (get_entry S pl t.doc_id))
                else get_entry S pl d))
  unfolding insert_entry insert_raw_entry
  insert_entry_parts pl t v = go (get_entry S pl t.doc_id)
    where
      own : doc_id (add_position (pl.entry_factory t.doc_id) t.position) ≡ t.doc_id
      own =
          doc_id-added pl.is_positional t.doc_id t.position (pl.entry_factory t.doc_id)
            (v.makes t.doc_id)

      bare : pl.entry_factory t.doc_id ≡ bare_entry pl.is_positional t.doc_id
      bare =
          Makes-bare_entry pl.is_positional (pl.entry_factory t.doc_id) t.doc_id (v.makes t.doc_id)

      go :
          (o : Option Entry)
          → (entries (insert_found S pl t.doc_id t.position o).0.list
              ≡ put_entry t.doc_id (added_to pl.is_positional t o) (entries pl.list))
            × ((insert_found S pl t.doc_id t.position o).0.is_positional ≡ pl.is_positional)
            × (entry_count S (insert_found S pl t.doc_id t.position o).0 ≡ (
                if (insert_found S pl t.doc_id t.position o).1
                then entry_count S pl + 1
                else entry_count S pl))
            × ((d : ℕ)
                → get_entry S (insert_found S pl t.doc_id t.position o).0 d ≡ (
                    if t.doc_id == d
                    then some (added_to pl.is_positional t o)
                    else get_entry S pl d))
      go none =
          unfold insert_found insert_complete_entry entry_count get_entry in
          (
            rw own (
                entries-set pl.list t.doc_id _
                ∙ ap (λ e. put_entry t.doc_id (add_position e t.position) (entries pl.list)) bare),
            refl,
            refl,
            λ d.
                rw own (get-set S pl.list t.doc_id d _)
                ∙ ap
                    (λ e.
                      if t.doc_id == d then some (add_position e t.position) else get_entry S pl d)
                    bare,
          )
      go (some e) =
          unfold insert_found entry_count get_entry in
          (entries-set pl.list t.doc_id _, refl, refl, λ d. get-set S pl.list t.doc_id d _)
