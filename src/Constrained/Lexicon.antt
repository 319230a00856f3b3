-- ===== src/Constrained/Lexicon.antt =====
-- The lexicon of indexer/constrained/lexicon.go, which keeps a bounded number of entries in memory: its
-- state, the order of the sets in memory, and the worker that lists the sets on disk.
pub mod Memory
pub mod Terms
pub mod Worker
pub mod Metadata
pub mod Disk
pub mod History
use irengine.Common.{
  ℕ, zero, suc, ◌+◌, ◌-◌, ◌/◌, ◌==◌, ltb, if◌then◌else◌, ◌&&◌, Bool, true, false, Option, none,
  some, List, [], ◌∷◌, ◌++◌, ℤ, pos, negsuc, Text, Dict, nat_key, text_key, lookup, insert, length,
  take, drop,
}
use irengine.Indexer.SkipMap.{SkipMap}
use irengine.Indexer.Entry.{Entry}
use irengine.Indexer.PostingList.{PostingList}
use irengine.Constrained.PostingListSet.{PostingListSet}

-- The tests on floating-point numbers: the load of a limit is above 0.8, and a size is below 0.95 and
-- below 0.75 of a limit.
pub record LoadTests : Type 0 where
  pub above_80 : ℤ → ℤ → Bool
  pub below_95 : ℕ → ℕ → Bool
  pub below_75 : ℕ → ℕ → Bool

-- `PLSContainer`: a set that is on disk only is `none`.
pub record Container (S : SkipMap Entry) : Type 0 where
  pub tag : Text
  pub size : ℕ
  pub hits : ℕ
  pub dumps : ℕ
  pub loads : ℕ
  pub pls : Option (PostingListSet S)

-- The map from `PLSStat` to numbers
pub record Stats : Type 0 where
  pub dump_count : ℕ
  pub load_count : ℕ
  pub hit_count : ℕ
  pub create_count : ℕ
  pub fetch_count : ℕ

-- Pointers to containers are addresses, given out from 0 on. `in_hand` is the message that the worker
-- has received and has not yet done; `disk` is the file of each tag.
pub record Lexicon (S : SkipMap Entry) : Type 0 where
  pub max_load : ℤ
  pub current_load : ℤ
  pub per_pls_load : ℕ
  pub pl_init : PostingList S
  pub containers : Dict ℕ (Container S)
  pub next : ℕ
  pub pl_set_cache : Dict Text ℕ
  pub lru_cache : List ℕ
  pub swapped_cache : List ℕ
  pub in_hand : Option ℕ
  pub disk : Dict Text Text
  pub stats : Stats

-- The loop of `makeRecent`: the container goes to the end.
unfoldable pub move_last : ℕ → List ℕ → List ℕ
move_last a [] = []
move_last a (b ∷ bs) = if b == a then bs ++ a ∷ [] else b ∷ move_last a bs

unfoldable pub index_of : ℕ → List ℕ → Option ℕ
index_of a [] = none
index_of a (b ∷ bs) =
    if b == a then some 0 else elim (index_of a bs) [ none ↦ none | some i ↦ some (suc i) ]

-- The switch of `SwappedWorker` where a container stands at a place of the swapped ones.
unfoldable pub remove_index : ℕ → List ℕ → List ℕ
remove_index i swapped =
    if length swapped == 1
    then []
    else if i == 0
    then drop (i + 1) swapped
    else if ltb i (length swapped - 1)
    then take (i - 1) swapped ++ drop (i + 1) swapped
    else take (i - 1) swapped

-- The loop of `SwappedWorker`. (No container stands there twice, so a second one is not looked for.)
unfoldable pub remove_swapped : ℕ → List ℕ → List ℕ
unfolding index_of remove_index
remove_swapped a swapped = elim (index_of a swapped) [
  | none ↦ swapped
  | some i ↦ remove_index i swapped
]

module _ (S : SkipMap Entry) where
  -- `NewPLSContainer`
  unfoldable pub new_container : Text → PostingListSet S → Container S
  new_container tag pls = record {
    tag = tag;
    size = pls.size;
    hits = 1;
    dumps = 0;
    loads = 0;
    pls = some pls;
  }

  -- The set of a container that is in memory.
  abbrev pub loaded_at : Lexicon S → ℕ → Option (PostingListSet S)
  loaded_at lex a = elim (lookup a lex.containers) [ none ↦ none | some c ↦ c.pls ]

  -- One message of `SwappedWorker`: the container is swapped, or it is in memory again.
  unfoldable pub work : Lexicon S → ℕ → List ℕ
  unfolding remove_swapped
  work lex target = elim (loaded_at lex target) [
    | none ↦ lex.swapped_cache ++ target ∷ []
    | some pls ↦ remove_swapped target lex.swapped_cache
  ]

  unfoldable pub after_message : Lexicon S → List ℕ
  unfolding work
  after_message lex = elim lex.in_hand [ none ↦ lex.swapped_cache | some target ↦ work lex target ]

  -- The worker does what it has in hand. It may do so between any two operations.
  unfoldable pub swapped_worker : Lexicon S → Lexicon S
  swapped_worker lex = record lex { swapped_cache = after_message lex; in_hand = none }

  -- `lex.swapped_worker_q <- pls`: the channel has no buffer, so the worker is done with the message before.
  unfoldable pub send : Lexicon S → ℕ → Lexicon S
  send lex a = record lex { swapped_cache = after_message lex; in_hand = some a }

  unfoldable pub make_recent : Lexicon S → ℕ → Lexicon S
  unfolding move_last
  make_recent lex a =
      if length lex.lru_cache == 1
      then lex
      else record lex { lru_cache = move_last a lex.lru_cache }

  -- `setMaxLoad`; the last number is the largest `int`.
  unfoldable pub set_max_load : Lexicon S → ℤ → Lexicon S
  set_max_load lex (pos (suc n)) = record lex {
    max_load = pos (suc n);
    per_pls_load = if ltb 20000 (suc n) then 5000 else suc n / 5;
  }
  set_max_load lex (pos zero) = record lex { max_load = pos 0; per_pls_load = 0x7fffffffffffffff }
  set_max_load lex (negsuc n) = record lex {
    max_load = negsuc n;
    per_pls_load = 0x7fffffffffffffff;
  }

  -- `Init`, before a limit is set.
  abbrev pub init_lexicon : PostingList S → Lexicon S
  init_lexicon init = record {
    max_load = pos 0;
    current_load = pos 0;
    per_pls_load = 0;
    pl_init = init;
    containers = [];
    next = 0;
    pl_set_cache = [];
    lru_cache = [];
    swapped_cache = [];
    in_hand = none;
    disk = [];
    stats = record {
      dump_count = 0;
      load_count = 0;
      hit_count = 0;
      create_count = 0;
      fetch_count = 0;
    };
  }

  -- `Init` and `setMaxLoad`, as `NewLexicon` calls them on an empty directory.
  unfoldable pub new_lexicon : PostingList S → ℤ → Lexicon S
  unfolding set_max_load
  new_lexicon init max_mem = set_max_load (init_lexicon init) max_mem

  -- The first loop of `LeastUsedPLS`: the first set in memory that has room.
  unfoldable pub first_with_room : Lexicon S → List ℕ → Option Text
  first_with_room lex [] = none
  first_with_room lex (a ∷ rest) = elim (lookup a lex.containers) [
    | none ↦ first_with_room lex rest
    | some c ↦ if ltb c.size lex.per_pls_load then some c.tag else first_with_room lex rest
  ]

  module _ (F : LoadTests) where
    -- The switch of its second loop
    unfoldable pub better_of : ℕ → Option (Container S) → Container S → Option (Container S)
    better_of per none pls = if F.below_95 pls.size per then some pls else none
    better_of per (some best) pls =
        if ltb best.hits pls.hits && F.below_75 pls.size per then some pls else some best

    unfoldable pub best_swapped : Lexicon S → Option (Container S) → List ℕ → Option (Container S)
    unfolding better_of
    best_swapped lex best [] = best
    best_swapped lex best (a ∷ rest) = elim (lookup a lex.containers) [
      | none ↦ best_swapped lex best rest
      | some c ↦ best_swapped lex (better_of lex.per_pls_load best c) rest
    ]

    -- `LeastUsedPLS`, with the tag that `generateTag` would make.
    unfoldable pub least_used_pls : Lexicon S → Text → Text
    unfolding first_with_room best_swapped
    least_used_pls lex generated = elim (first_with_room lex lex.lru_cache) [
      | some tag ↦ tag
      | none ↦ elim (best_swapped lex none lex.swapped_cache) [
        | none ↦ generated
        | some best ↦ best.tag
      ]
    ]
