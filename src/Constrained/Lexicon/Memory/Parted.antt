-- ===== src/Constrained/Lexicon/Memory/Parted.antt =====
-- The two sets of `TransferPL` to a new set.
use irengine.Common.{
  ℕ, ◌+◌, ◌-◌, ◌≡◌, refl, if◌then◌else◌, some, [], ◌∷◌, arith, Text, text_eq, nat_key, text_key,
  lookup, remove, lookup-remove,
}
use irengine.Indexer.SkipMap.{SkipMap}
use irengine.Indexer.Entry.{Entry}
use irengine.Indexer.PostingList.{PostingList, entry_count, get_entry}
use irengine.Constrained.PostingListSet.{
  PostingListSet, new_posting_list_set, transfer_pl, sum_lengths,
}
use irengine.Constrained.PostingListSet.Reload.{view}
use irengine.Constrained.PostingListSet.Consistent.{
  All-remove, AreDistinct-remove, sum_lengths-remove, IsListed, IsConsistent,
}

module _ (S : SkipMap Entry) where
  -- The source behind a transfer.
  abbrev pub without : PostingListSet S → Text → PostingList S → PostingListSet S
  without pls text pl = record pls {
    size = pls.size - entry_count S pl;
    list_map = remove text pls.list_map;
  }

  -- A set of one list.
  abbrev pub alone : PostingList S → Text → PostingList S → PostingListSet S
  alone init text pl = record (new_posting_list_set S init) {
    list_map = (text, pl) ∷ [];
    size = 0 + entry_count S pl;
  }

  pub transfer_pl-new :
      (init : PostingList S) (pls : PostingListSet S) (text : Text) (pl : PostingList S)
      → lookup text pls.list_map ≡ some pl
      → transfer_pl S pls (new_posting_list_set S init) text
        ≡ some (without pls text pl, alone init text pl, entry_count S pl)
  unfolding transfer_pl new_posting_list_set
  transfer_pl-new init pls text pl h = rw (h, transfer_pl) refl

  pub without-IsConsistent :
      (init : PostingList S) (pls : PostingListSet S) (text : Text) (pl : PostingList S)
      → IsConsistent S init pls
      → lookup text pls.list_map ≡ some pl
      → IsConsistent S init (without pls text pl)
  without-IsConsistent init pls text pl c h = record {
    made = c.made;
    listed = All-remove (IsListed S init) text pls.list_map c.listed;
    distinct = AreDistinct-remove text pls.list_map c.distinct;
    counted = omega (arith, c.counted, sum_lengths-remove S text pl pls.list_map c.distinct h);
  }

  pub alone-IsConsistent :
      (init : PostingList S) (text : Text) (pl : PostingList S)
      → IsListed S init (text, pl)
      → IsConsistent S init (alone init text pl)
  unfolding sum_lengths new_posting_list_set
  alone-IsConsistent init text pl l = record {
    made = refl;
    listed = (l, tt);
    distinct = (refl, tt);
    counted = omega arith;
  }

  pub view-without :
      (pls : PostingListSet S) (text : Text) (pl : PostingList S) (x : Text) (d : ℕ)
      → view S (without pls text pl) x d
        ≡ (if text_eq text x then get_entry S pls.pl_init d else view S pls x d)
  view-without pls text pl x d = ground (arith, lookup-remove text x pls.list_map)

  pub view-alone :
      (init : PostingList S) (text : Text) (pl : PostingList S) (x : Text) (d : ℕ)
      → view S (alone init text pl) x d
        ≡ (if text_eq text x then get_entry S pl d else get_entry S init d)
  unfolding new_posting_list_set
  view-alone init text pl x d = ground arith
