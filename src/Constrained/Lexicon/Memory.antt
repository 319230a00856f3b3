-- ===== src/Constrained/Lexicon/Memory.antt =====
-- What keeps the memory of the lexicon bounded: `load_factor`, `dump_pls`, `evict`, `AddPLS` and
-- `RetrievePLS` of indexer/constrained/lexicon.go. `none` is a panic.
pub mod Round
pub mod Evicted
pub mod Kept
pub mod Changed
pub mod Added
pub mod Reread
pub mod Keeps
pub mod Settles
pub mod ReadBack
pub mod Settled
pub mod Parted
pub mod Split
pub mod Retrieves
pub mod Retrieved
pub mod Unlisted
use irengine.Common.{
  ℕ, suc, ◌+◌, ◌-◌, ◌==◌, ltb, not, if◌then◌else◌, ◌&&◌, Bool, true, false, Option, none, some,
  List, [], ◌∷◌, ◌++◌, ℤ, pos, ◌+ℤ◌, ◌-ℤ◌, is_negative, Text, Dict, nat_key, text_key, lookup,
  insert, length,
}
use irengine.Indexer.SkipMap.{SkipMap}
use irengine.Indexer.Entry.{Entry}
use irengine.Indexer.PostingList.{PostingList}
use irengine.Constrained.PostingListSet.{
  PostingListSet, new_posting_list_set, transfer_pl, load, dump,
}
use irengine.Constrained.Lexicon.{LoadTests, Container, Lexicon, new_container, send, make_recent}

module _ (S : SkipMap Entry) where
  abbrev pub is_empty : List ℕ → Bool
  is_empty [] = true
  is_empty (a ∷ as') = false

  -- `load_factor`: what it does to the load.
  unfoldable pub settle_load : Lexicon S → Lexicon S
  settle_load lex =
      if not (is_negative lex.max_load) && is_empty lex.lru_cache
      then record lex { current_load = pos 0 }
      else lex

  -- `AddPLS`
  unfoldable pub add_pls : Lexicon S → Text → PostingListSet S → Lexicon S
  unfolding new_container
  add_pls lex tag new_pls = record lex {
    containers = insert lex.next (new_container S tag new_pls) lex.containers;
    next = lex.next + 1;
    pl_set_cache = insert tag lex.next lex.pl_set_cache;
    lru_cache = lex.lru_cache ++ lex.next ∷ [];
    current_load = lex.current_load +ℤ pos new_pls.size;
  }

  abbrev pub store : Lexicon S → ℕ → Container S → Lexicon S
  store lex a c = record lex { containers = insert a c lex.containers }

  -- The container of a set that is dumped
  abbrev pub swapped_out : Container S → Container S
  swapped_out c = record c { dumps = c.dumps + 1; pls = none }

  -- The rest of a round of `evict`, behind `dump_pls`.
  unfoldable pub drop_oldest : Lexicon S → ℕ → List ℕ → Container S → Lexicon S
  unfolding send
  drop_oldest lex a rest c =
      let lex' : Lexicon S = record lex {
        containers = insert a (swapped_out c) lex.containers;
        current_load = lex.current_load -ℤ pos c.size;
      } in
      record (send S lex' a) {
        lru_cache = rest;
        stats = record lex.stats { dump_count = lex.stats.dump_count + 1 };
      }

  -- What `RetrievePLS` gives: the lexicon, the container whose set it returns, and the term's tag,
  -- which it may change.
  abbrev pub Retrieved : Type 0
  Retrieved = Lexicon S × ℕ × Text

  abbrev pub count_create : Lexicon S → Lexicon S
  count_create lex = record lex {
    stats = record lex.stats { create_count = lex.stats.create_count + 1 };
  }

  -- The counts of a hit
  unfoldable pub touched : Lexicon S → ℕ → Container S → Lexicon S
  touched lex a c = record (store lex a (record c { hits = c.hits + 1 })) {
    stats = record lex.stats { hit_count = lex.stats.hit_count + 1 };
  }

  module _ (F : LoadTests) where
    -- `lex.load_factor() > 0.8`
    unfoldable pub is_loaded : Lexicon S → Bool
    is_loaded lex = not (is_negative lex.max_load) && F.above_80 lex.current_load lex.max_load

  -- The file system creates the file of a tag, or `dump_pls` panics.
  module _ (can_create : Text → Bool) where
    -- `dump_pls`
    unfoldable pub dump_pls : Lexicon S → Container S → Option (Lexicon S)
    dump_pls lex c = elim c.pls [
      | none ↦ none
      | some pls ↦
          if can_create c.tag
          then some (record lex { disk = insert c.tag (dump S pls) lex.disk })
          else none
    ]

    -- A round of `evict` for the oldest container; it panics if the sizes differ.
    unfoldable pub evict_oldest : Lexicon S → ℕ → List ℕ → Option (Lexicon S)
    unfolding dump_pls
    evict_oldest lex a rest = elim (lookup a lex.containers) [
      | none ↦ none
      | some c ↦ elim (dump_pls lex c) [
        | none ↦ none
        | some lex' ↦ elim c.pls [
          | none ↦ none
          | some pls ↦ if c.size == pls.size then some (drop_oldest lex' a rest c) else none
        ]
      ]
    ]

  module _ (F : LoadTests) (can_create : Text → Bool) where
    -- The loop of `evict`, over what is left of the sets in memory, the oldest one first.
    unfoldable pub evict_loop : List ℕ → Lexicon S → Option (Lexicon S)
    evict_loop [] lex = some (settle_load lex)
    evict_loop (a ∷ rest) lex = elim (is_loaded F lex) [
      | false ↦ some lex
      | true ↦ elim (evict_oldest can_create lex a rest) [
        | none ↦ none
        | some lex' ↦ evict_loop rest lex'
      ]
    ]

    -- `evict`
    unfoldable pub evict : Lexicon S → Option (Lexicon S)
    unfolding evict_loop
    evict lex = evict_loop lex.lru_cache lex

    -- The first case of the switch: the tag is new.
    unfoldable pub create_pls : Lexicon S → Text → Option Retrieved
    unfolding add_pls
    create_pls lex tag = elim (evict lex) [
      | none ↦ none
      | some lex' ↦
          some
            (count_create (add_pls lex' tag (new_posting_list_set S lex'.pl_init)), lex'.next, tag)
    ]

    -- The third case: the set is on disk.
    unfoldable pub read_pls : Lexicon S → ℕ → Container S → Option Retrieved
    unfolding send
    read_pls lex a c = elim (lookup c.tag lex.disk) [
      | none ↦ none
      | some text ↦ elim (load S (new_posting_list_set S lex.pl_init) text) [
        | none ↦ none
        | some pls ↦
            let c' : Container S = record c {
              pls = some pls;
              size = pls.size;
              loads = c.loads + 1;
            } in
            let lex' : Lexicon S = record (store lex a c') {
              stats = record lex.stats { load_count = lex.stats.load_count + 1 };
            } in
            elim (evict (send S lex' a)) [ none ↦ none | some lex'' ↦ some (lex'', a, c.tag) ]
      ]
    ]

    -- A set that is over its size loses the list of the term to a new set under a new tag.
    unfoldable pub split_pls :
        Lexicon S → ℕ → Container S → PostingListSet S → Text → Text → Option (Lexicon S)
    unfolding add_pls
    split_pls lex a c pls text tag =
        elim (transfer_pl S pls (new_posting_list_set S lex.pl_init) text) [
          | none ↦ none
          | some (src, dst, moved) ↦
              let c' : Container S = record c { pls = some src; size = c.size - moved } in
              let lex' : Lexicon S = record (store lex a c') {
                current_load = lex.current_load -ℤ pos moved;
              } in
              elim (evict (add_pls lex' tag dst)) [
                | none ↦ none
                | some lex'' ↦ some (count_create lex'')
              ]
        ]

    -- The second case: the set is in memory. `again` is the jump back with a new tag, if the random
    -- numbers last.
    unfoldable pub hit_pls :
        (((Text → Option (Lexicon S)) → Option Retrieved)
          → Lexicon S
          → ℕ
          → Container S
          → PostingListSet S
          → Text
          → Text
          → Option Retrieved)
    hit_pls again lex a c pls text tag =
        let lex' = touched lex a c in
        let split_off = again (split_pls lex' a (record c { hits = c.hits + 1 }) pls text) in
        if ltb lex.per_pls_load c.size && ltb 1 (length pls.list_map)
        then split_off
        else some (make_recent S lex' a, a, tag)

    -- The switch of `RetrievePLS`
    unfoldable pub pls_switch :
        (((Text → Option (Lexicon S)) → Option Retrieved)
          → Lexicon S
          → Text
          → Text
          → Option Retrieved)
    pls_switch again lex text tag = elim (lookup tag lex.pl_set_cache) [
      | none ↦ create_pls lex tag
      | some a ↦ elim (lookup a lex.containers) [
        | none ↦ none
        | some c ↦ elim c.pls [
          | none ↦ read_pls lex a c
          | some pls ↦ hit_pls again lex a c pls text tag
        ]
      ]
    ]

    -- The part of `RetrievePLS` behind `StartAgain`, with the tags that `generateTag` makes.
    unfoldable pub start_again : List Text → Lexicon S → Text → Text → Option Retrieved
    unfolding pls_switch
    start_again [] lex text tag = pls_switch (λ move. none) lex text tag
    start_again (generated ∷ more) lex text tag =
        pls_switch
          (λ move. elim (move generated) [
            | none ↦ none
            | some lex' ↦ start_again more lex' text generated
          ])
          lex text tag

    -- `RetrievePLS` of a term with a text and a tag
    unfoldable pub retrieve_pls : List Text → Lexicon S → Text → Text → Option Retrieved
    unfolding start_again
    retrieve_pls generated lex text tag =
        start_again generated
          (record lex { stats = record lex.stats { fetch_count = lex.stats.fetch_count + 1 } }) text
          tag
