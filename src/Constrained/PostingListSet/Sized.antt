-- ===== src/Constrained/PostingListSet/Sized.antt =====
-- The number of entries of a set that is written and read again.
use irengine.Common.{
  ℕ, suc, ◌+◌, ◌≡◌, refl, sym, ap, ◌∙◌, some, some-injective, List, [], ◌∷◌, arith, All, Text, Dict,
  length, length-append,
}
use irengine.Indexer.SkipMap.{SkipMap}
use irengine.Indexer.Entry.{Entry}
use irengine.Indexer.PostingList.{PostingList, entry_count}
use irengine.Indexer.PostingList.Valid.{IsValid}
use irengine.Constrained.PostingListSet.{
  PostingListSet, new_posting_list_set, add_entry, load, dump, sum_lengths,
}
use irengine.Constrained.PostingListSet.RoundTrip.{list_pairs, map_pairs, add_all, load-dump}
use irengine.Constrained.PostingListSet.Consistent.{IsConsistent, map_pairs-IsDumpable, All-IsValid}

module _ (S : SkipMap Entry) where
  open S use {entries}

  add_all_size :
      (pls : PostingListSet S) (ps : List (Text × Entry))
      → (add_all S pls ps).size ≡ pls.size + length ps
  unfolding add_all add_entry
  add_all_size pls [] = omega arith
  add_all_size pls ((t, e) ∷ ps) = omega (arith, add_all_size (add_entry S pls t e) ps)

  length-list_pairs : (t : Text) (es : List (ℕ × Entry)) → length (list_pairs S t es) ≡ length es
  length-list_pairs t [] = refl
  length-list_pairs t ((k, e) ∷ es) = ap suc (length-list_pairs t es)

  length-map_pairs :
      (m : Dict Text (PostingList S))
      → All (λ p. IsValid S p.1) m
      → length (map_pairs S m) ≡ sum_lengths S m
  unfolding sum_lengths entry_count
  length-map_pairs [] a = refl
  length-map_pairs ((t, pl) ∷ m) (v, a) = omega (
    arith,
    length-append (list_pairs S t (entries pl.list)) (map_pairs S m),
    length-list_pairs t (entries pl.list),
    v.counted,
    length-map_pairs m a,
  )

  pub load-dump_size :
      (init : PostingList S) (pls r : PostingListSet S)
      → IsConsistent S init pls
      → load S (new_posting_list_set S init) (dump S pls) ≡ some r
      → pls.size ≡ r.size
  unfolding new_posting_list_set
  load-dump_size init pls r c reads =
      let target = new_posting_list_set S init in
      let all = load-dump S pls target (map_pairs-IsDumpable S init pls.list_map c.listed) in
      let same : add_all S target (map_pairs S pls.list_map) ≡ r =
        some-injective (sym all ∙ reads) in
      omega (
        arith,
        c.counted,
        length-map_pairs pls.list_map (All-IsValid S init pls.list_map c.listed),
        add_all_size target (map_pairs S pls.list_map),
        ap (λ (q : PostingListSet S). q.size) same,
      )
