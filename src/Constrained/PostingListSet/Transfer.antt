-- ===== src/Constrained/PostingListSet/Transfer.antt =====
-- `TransferPL`: what becomes of both sets.
use irengine.Common.{
  ◌+◌, ◌-◌, ◌≤◌, ◌≡◌, refl, if◌then◌else◌, none, some, arith, Text, text_eq, text_key, lookup,
  insert, remove, lookup-insert, lookup-remove,
}
use irengine.Indexer.SkipMap.{SkipMap}
use irengine.Indexer.Entry.{Entry}
use irengine.Indexer.PostingList.{PostingList, entry_count}
use irengine.Constrained.PostingListSet.{PostingListSet, transfer_pl}

module _ (S : SkipMap Entry) where
  -- What a transfer of the list `pl` of a term leaves.
  abbrev pub IsTransferred :
      PostingListSet S
      → PostingListSet S
      → Text
      → PostingList S
      → PostingListSet S
      → PostingListSet S
      → Type 0
  IsTransferred src dst term pl src' dst' =
      (src'.size + dst'.size ≡ src.size + dst.size)
      × ((x : Text)
          → lookup x src'.list_map ≡ (if text_eq term x then none else lookup x src.list_map))
      × ((x : Text)
          → lookup x dst'.list_map ≡ (if text_eq term x then some pl else lookup x dst.list_map))

  -- The list of a term that the source has goes to the destination: the sizes together stay, the source
  -- loses this term alone, the destination gets it, and the result is the list's length. The source's
  -- size must count the list.
  pub transfer_pl_lem :
      (src dst : PostingListSet S) (term : Text) (pl : PostingList S)
      → lookup term src.list_map ≡ some pl
      → entry_count S pl ≤ src.size
      → (src' : PostingListSet S) × (dst' : PostingListSet S) × (transfer_pl S src dst term
          ≡ some (src', dst', entry_count S pl))
        × IsTransferred src dst term pl src' dst'
  unfolding transfer_pl
  transfer_pl_lem src dst term pl h l =
      let src' : PostingListSet S = record src {
        size = src.size - entry_count S pl;
        list_map = remove term src.list_map;
      } in
      let dst' : PostingListSet S = record dst {
        list_map = insert term pl dst.list_map;
        size = dst.size + entry_count S pl;
      } in
      (
        src',
        dst',
        rw (h, transfer_pl) refl,
        (
          omega (arith, l),
          (λ x. lookup-remove term x src.list_map),
          (λ x. lookup-insert term x pl dst.list_map),
        ),
      )
