-- ===== src/Tests/Sets.antt =====
-- A posting list set that is written and read, and a list that changes its set.
use irengine.Common.{
  ℕ, ◌≡◌, refl, format_int, true, some, [], ◌∷◌, arith, Text, codes, text_key, trim_end, is_space,
}
use irengine.Indexer.SkipMap.{SkipMap, ordered_list}
use irengine.Indexer.Entry.{Entry, positional, serialize}
use irengine.Indexer.PostingList.{PostingList, entry_count}
use irengine.Constrained.PostingListSet.{
  PostingListSet, new_posting_list_set, load, dump, transfer_pl,
}
use irengine.Indexer.PostingList.Valid.{IsValid}
use irengine.Constrained.PostingListSet.RoundTrip.{IsTerm}
use irengine.Constrained.PostingListSet.Reload.{view, view-load-dump}
use irengine.Constrained.PostingListSet.Transfer.{IsTransferred, transfer_pl_lem}

abbrev pub S : SkipMap Entry
S = ordered_list Entry

abbrev pub empty_list : PostingList S
empty_list = record {
  list = S.new_custom_map;
  count = 0;
  is_positional = true;
  entry_factory = λ d. positional d [];
}

abbrev pub york : PostingList S
york = record empty_list {
  list = (
    (7, positional 7 (2 ∷ [])) ∷ (9, positional 9 (1 ∷ 3 ∷ [])) ∷ [],
    ((omega arith, tt), (tt, tt)),
  );
  count = 2;
}

abbrev terms : PostingListSet S
terms = record {
  list_map = (codes "york", york) ∷ [];
  pl_init = empty_list;
  size = 2;
  size_needs_refresh = true;
}

pub york-IsTerm : IsTerm (codes "york")
york-IsTerm = (unfold is_space in refl, unfold trim_end is_space in refl, refl, refl)

pub york-IsValid : IsValid S york
york-IsValid = record {
  counted = refl;
  held = (
    (refl, refl, omega arith, (tt, tt)),
    ((refl, refl, omega arith, ((omega arith, tt), (tt, tt))), tt),
  );
  makes = λ d. refl;
}

view-load-dump_example :
    (r : PostingListSet S) × (load S (new_posting_list_set S empty_list) (dump S terms) ≡ some r)
    × ((x : Text) (d : ℕ) → view S r x d ≡ view S terms x d)
view-load-dump_example =
    view-load-dump S terms
      (
        (
          york-IsTerm,
          (omega arith, (omega arith, tt), (tt, tt)),
          refl,
          unfold serialize format_int in omega arith,
        ),
        (
          (
            york-IsTerm,
            (omega arith, (omega arith, (omega arith, tt)), ((omega arith, tt), (tt, tt))),
            refl,
            unfold serialize format_int in omega arith,
          ),
          tt,
        ),
      )
      (york-IsValid, tt) (refl, tt) refl

transfer_pl_lem_example :
    (src' : PostingListSet S) × (dst' : PostingListSet S) × (transfer_pl S terms terms
        (codes "york")
      ≡ some (src', dst', entry_count S york))
    × IsTransferred S terms terms (codes "york") york src' dst'
transfer_pl_lem_example =
    transfer_pl_lem S terms terms (codes "york") york refl (unfold entry_count in omega arith)
