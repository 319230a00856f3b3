-- ===== src/Constrained/PostingListSet/Grown.antt =====
-- A set with one more token of a term.
use irengine.Common.{
  ℕ, ◌+◌, ◌==◌, ◌≡◌, refl, sym, ap, subst, ◌∙◌, if◌then◌else◌, Bool, true, false, Option, none,
  some, arith, All, Text, text_eq, text_eq_iff, ◌&&◌, text_key, lookup, insert, lookup-insert,
  Bool-cases, inl, inr,
}
use irengine.FileReader.Token.{Token}
use irengine.Indexer.Ordered.{All-put_entry_of}
use irengine.Indexer.SkipMap.{SkipMap}
use irengine.Indexer.Entry.{Entry}
use irengine.Indexer.PostingList.{PostingList, entry_count, get_entry, insert_entry}
use irengine.Indexer.PostingList.Valid.{insert_entry-IsValid}
use irengine.Indexer.PostingList.Inserted.{added_to, insert_entry_parts}
use irengine.Constrained.PostingListSet.{PostingListSet, list_or_new, sum_lengths}
use irengine.Constrained.PostingListSet.RoundTrip.{IsDumpable}
use irengine.Constrained.PostingListSet.Reload.{view}
use irengine.Constrained.PostingListSet.Consistent.{
  AreDistinct-insert, All-insert, sum_lengths-insert_new, sum_lengths-insert_old, IsListed,
  IsConsistent,
}
use irengine.Constrained.PostingListSet.Restored.{IsMaker, maker-count, listed_or_new}

module _ (S : SkipMap Entry) where
  open S use {entries}

  -- `Get`, `InsertEntry` and the size.
  abbrev pub grown : PostingListSet S → Text → Token → PostingListSet S
  grown pls text token =
      let (pl', added) = insert_entry S (list_or_new S pls text) token in
      record pls {
        list_map = insert text pl' pls.list_map;
        size = if added then pls.size + 1 else pls.size;
        size_needs_refresh = true;
      }

  module _ (init : PostingList S) (m : IsMaker S init) (pls : PostingListSet S)
      (c : IsConsistent S init pls) (text : Text) (token : Token)
      (line : IsDumpable
        (init.entry_factory 0)
        (text, added_to init.is_positional token (view S pls text token.doc_id))) where
    before : IsListed S init (text, list_or_new S pls text)
    before = listed_or_new S init pls text m c

    abbrev pl' : PostingList S
    pl' = (insert_entry S (list_or_new S pls text) token).0

    abbrev is_added : Bool
    is_added = (insert_entry S (list_or_new S pls text) token).1

    pl'-IsListed : IsListed S init (text, pl')
    pl'-IsListed =
        let (v, kind, lines) = before in
        let (es, kind', count, gets) = insert_entry_parts S (list_or_new S pls text) token v in
        (
          insert_entry-IsValid S (list_or_new S pls text) token v,
          kind' ∙ kind,
          subst (All (λ ke. IsDumpable (init.entry_factory 0) (text, ke.1))) (sym es) (
              All-put_entry_of (λ ke. IsDumpable (init.entry_factory 0) (text, ke.1)) token.doc_id _
                (entries (list_or_new S pls text).list)
                (subst
                  (λ f.
                    IsDumpable (init.entry_factory 0)
                      (text, added_to f token (view S pls text token.doc_id)))
                  (sym kind) line)
                lines),
        )

    pub grown-view :
        (x : Text) (d : ℕ)
        → view S (grown pls text token) x d ≡ (
            if text_eq text x && token.doc_id == d
            then some (added_to init.is_positional token (view S pls text token.doc_id))
            else view S pls x d)
    grown-view x d =
        let (v, kind, lines) = before in
        let (es, kind', count, gets) = insert_entry_parts S (list_or_new S pls text) token v in
        ap (λ o. get_entry S (elim o [ none ↦ pls.pl_init | some q ↦ q ]) d)
          (lookup-insert text x pl' pls.list_map)
        ∙ elim (Bool-cases (text_eq text x)) [
          | inl same ↦ rw same (
              gets d
              ∙ ap
                  (λ f.
                    if token.doc_id == d
                    then some (added_to f token (view S pls text token.doc_id))
                    else view S pls text d)
                  kind
              ∙ ap
                  (λ y.
                    if token.doc_id == d
                    then some (added_to init.is_positional token (view S pls text token.doc_id))
                    else view S pls y d)
                  ((text_eq_iff text x).0 same))
          | inr other ↦ rw other refl
        ]

    pub grown-IsConsistent : IsConsistent S init (grown pls text token)
    grown-IsConsistent = record {
      made = c.made;
      listed = All-insert (IsListed S init) text pl' pls.list_map pl'-IsListed c.listed;
      distinct = AreDistinct-insert text pl' pls.list_map c.distinct;
      counted = go (lookup text pls.list_map) refl;
    }
      where
        parts : entry_count S pl' ≡ (
            if is_added
            then entry_count S (list_or_new S pls text) + 1
            else entry_count S (list_or_new S pls text))
        parts = (insert_entry_parts S (list_or_new S pls text) token before.0).2

        sums :
            (b : Bool) (k n : ℕ)
            → n ≡ (if b then k + 1 else k)
            → (if b then pls.size + 1 else pls.size) + k ≡ pls.size + n
        sums true k n h = omega (arith, h)
        sums false k n h = omega (arith, h)

        go :
            (o : Option (PostingList S))
            → lookup text pls.list_map ≡ o
            → (if is_added then pls.size + 1 else pls.size)
              ≡ sum_lengths S (insert text pl' pls.list_map)
        go none h =
            let bare : entry_count S (list_or_new S pls text) ≡ 0 =
              ap (λ o. entry_count S (elim o [ none ↦ pls.pl_init | some q ↦ q ])) h
              ∙ ap (entry_count S) c.made
              ∙ maker-count S init m in
            omega (
              arith,
              c.counted,
              sums is_added (entry_count S (list_or_new S pls text)) (entry_count S pl') parts,
              sum_lengths-insert_new S text pl' pls.list_map h,
              bare,
            )
        go (some old) h =
            let same : entry_count S (list_or_new S pls text) ≡ entry_count S old =
              ap (λ o. entry_count S (elim o [ none ↦ pls.pl_init | some q ↦ q ])) h in
            omega (
              arith,
              c.counted,
              sums is_added (entry_count S (list_or_new S pls text)) (entry_count S pl') parts,
              sum_lengths-insert_old S text pl' old pls.list_map h,
              same,
            )
