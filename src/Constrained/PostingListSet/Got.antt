-- ===== src/Constrained/PostingListSet/Got.antt =====
-- A set of which a list is taken with `Get`.
use irengine.Common.{
  ℕ, ◌≡◌, refl, ap, ◌∙◌, Option, none, some, true, arith, Text, text_eq, text_eq_iff, text_key,
  lookup, insert, lookup-insert, Bool-cases, inl, inr,
}
use irengine.Indexer.SkipMap.{SkipMap}
use irengine.Indexer.Entry.{Entry}
use irengine.Indexer.PostingList.{PostingList, entry_count, get_entry}
use irengine.Constrained.PostingListSet.{PostingListSet, list_or_new, sum_lengths}
use irengine.Constrained.PostingListSet.Reload.{view}
use irengine.Constrained.PostingListSet.Consistent.{
  AreDistinct-insert, All-insert, sum_lengths-insert_new, sum_lengths-insert_old, IsListed,
  IsConsistent,
}
use irengine.Constrained.PostingListSet.Restored.{IsMaker, maker-count, listed_or_new}

module _ (S : SkipMap Entry) where
  -- The set after `Get`
  abbrev pub got : PostingListSet S → Text → PostingListSet S
  got pls text = record pls {
    list_map = insert text (list_or_new S pls text) pls.list_map;
    size_needs_refresh = true;
  }

  pub got-view :
      (pls : PostingListSet S) (text x : Text) (d : ℕ) → view S (got pls text) x d ≡ view S pls x d
  got-view pls text x d =
      ap (λ o. get_entry S (elim o [ none ↦ pls.pl_init | some q ↦ q ]) d)
        (lookup-insert text x (list_or_new S pls text) pls.list_map)
      ∙ elim (Bool-cases (text_eq text x)) [
        | inl same ↦ rw same (ap (λ y. view S pls y d) ((text_eq_iff text x).0 same))
        | inr other ↦ rw other refl
      ]

  pub got-IsConsistent :
      (init : PostingList S) (pls : PostingListSet S) (text : Text)
      → IsMaker S init
      → IsConsistent S init pls
      → IsConsistent S init (got pls text)
  got-IsConsistent init pls text m c = record {
    made = c.made;
    listed =
        All-insert (IsListed S init) text (list_or_new S pls text) pls.list_map
          (listed_or_new S init pls text m c) c.listed;
    distinct = AreDistinct-insert text (list_or_new S pls text) pls.list_map c.distinct;
    counted = go (lookup text pls.list_map) refl;
  }
    where
      go :
          (o : Option (PostingList S))
          → lookup text pls.list_map ≡ o
          → pls.size ≡ sum_lengths S (insert text (list_or_new S pls text) pls.list_map)
      go none h =
          let bare : entry_count S (list_or_new S pls text) ≡ 0 =
            ap (λ o. entry_count S (elim o [ none ↦ pls.pl_init | some q ↦ q ])) h
            ∙ ap (entry_count S) c.made
            ∙ maker-count S init m in
          omega (
            arith,
            c.counted,
            sum_lengths-insert_new S text (list_or_new S pls text) pls.list_map h,
            bare,
          )
      go (some old) h =
          let same : entry_count S (list_or_new S pls text) ≡ entry_count S old =
            ap (λ o. entry_count S (elim o [ none ↦ pls.pl_init | some q ↦ q ])) h in
          omega (
            arith,
            c.counted,
            sum_lengths-insert_old S text (list_or_new S pls text) old pls.list_map h,
            same,
          )
