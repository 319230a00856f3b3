-- ===== src/Indexer/PostingList.antt =====
-- The posting list of indexer/positional_postinglist.go, over the skip list's interface.
pub mod Valid
pub mod History
pub mod Filter
pub mod Sequential
pub mod Remove
pub mod Inserted
use irengine.Common.{
  ℕ, ◌+◌, ◌-◌, ltb, leb, if◌then◌else◌, Bool, true, false, not, ◌||◌, Option, none, some, List, [],
  ◌∷◌,
}
use irengine.FileReader.Token.{Token}
use irengine.Indexer.SkipMap.{SkipMap}
use irengine.Indexer.Entry.{
  Entry, new_basic_entry, new_positional_entry, doc_id, frequency, positions, add_position,
}

-- The inner loop of `FilterSequential` over what is left of both lists of positions: a position of
-- the filter that is at most `within` behind the current one is added to the entry.
pub filter_positions : ℕ → List ℕ → List ℕ → Entry → Entry
filter_positions within [] fs e = e
filter_positions within (p ∷ ps) [] e = e
filter_positions within (p ∷ ps) (f ∷ fs) e = elim (leb f (p + within)) [
  | true ↦ filter_positions within (p ∷ ps) fs (add_position e f)
  | false ↦ filter_positions within ps (f ∷ fs) e
]

module _ (S : SkipMap Entry) where
  open S use {Map, new_custom_map, get, set, delete, entries}

  -- `positional_pl`
  pub record PostingList : Type 0 where
    pub list : Map
    pub count : ℕ
    pub is_positional : Bool
    pub entry_factory : ℕ → Entry

  -- `Create` of `BasicPostingListInitializer`
  pub create_basic : PostingList
  create_basic = record {
    list = new_custom_map;
    count = 0;
    is_positional = false;
    entry_factory = new_basic_entry;
  }

  -- `Create` of `PositionalPostingListInitializer`
  unfoldable pub create_positional : PostingList
  create_positional = record {
    list = new_custom_map;
    count = 0;
    is_positional = true;
    entry_factory = new_positional_entry;
  }

  unfoldable pub entry_count : PostingList → ℕ
  entry_count pl = pl.count

  unfoldable pub get_entry : PostingList → ℕ → Option Entry
  get_entry pl id = get pl.list id

  unfoldable pub insert_complete_entry : PostingList → Entry → PostingList
  insert_complete_entry pl entry = record pl {
    list = set pl.list (doc_id entry) entry;
    count = pl.count + 1;
  }

  -- The entry that `GetEntry` found is changed in place; the result says whether one was made.
  insert_found : PostingList → ℕ → ℕ → Option Entry → PostingList × Bool
  insert_found pl docid position (some entry) =
      (record pl { list = set pl.list docid (add_position entry position) }, false)
  insert_found pl docid position none =
      (insert_complete_entry pl (add_position (pl.entry_factory docid) position), true)

  pub insert_raw_entry : PostingList → ℕ → ℕ → PostingList × Bool
  insert_raw_entry pl docid position = insert_found pl docid position (get_entry pl docid)

  pub insert_entry : PostingList → Token → PostingList × Bool
  insert_entry pl token = insert_raw_entry pl token.doc_id token.position

  -- The loop of `Remove`: the map and the count, or the panic on an id that is not there.
  remove_all : Map → ℕ → List ℕ → Option (Map × ℕ)
  remove_all list count [] = some (list, count)
  remove_all list count (id ∷ ids) =
      let (list', deleted) = delete list id in
      let more = remove_all list' (count + 1) ids in if deleted then more else none

  -- `Remove` gives the number of entries that it removed. (`-` stops at 0.)
  pub remove : PostingList → List ℕ → Option (PostingList × ℕ)
  remove pl ids = elim (remove_all pl.list 0 ids) [
    | none ↦ none
    | some (list, count) ↦ some (record pl { list = list; count = pl.count - count }, count)
  ]

  -- One round of the outer loop of `FilterSequential`: what `pl` and the filter have of a document.
  filter_entry : ℕ → PostingList → Entry → Option Entry → PostingList
  filter_entry within filtered pl_entry none = filtered
  filter_entry within filtered pl_entry (some other_entry) =
      let new_entry =
        filter_positions within (positions pl_entry) (positions other_entry)
          (filtered.entry_factory (doc_id pl_entry)) in
      if ltb 0 (frequency new_entry) then insert_complete_entry filtered new_entry else filtered

  filter_entries : ℕ → PostingList → List (ℕ × Entry) → PostingList → PostingList
  filter_entries within other [] filtered = filtered
  filter_entries within other ((k, pl_entry) ∷ rest) filtered =
      filter_entries within other rest
        (filter_entry within filtered pl_entry (get_entry other (doc_id pl_entry)))

  -- `none` is the panic on a list without positions.
  pub filter_sequential : PostingList → PostingList → ℕ → Option PostingList
  filter_sequential pl other within =
      if not pl.is_positional || not other.is_positional
      then none
      else some (
          filter_entries within other (entries pl.list) (record {
            list = new_custom_map;
            count = 0;
            is_positional = true;
            entry_factory = pl.entry_factory;
          }))
