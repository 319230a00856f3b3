-- ===== src/Constrained/PostingListSet.antt =====
-- `PostingListSet` of indexer/constrained/postinglist.go, and the text that is kept on disk of it.
pub mod Lines
pub mod RoundTrip
pub mod Reload
pub mod Transfer
pub mod Consistent
pub mod Restored
pub mod Grown
pub mod Got
pub mod Sized
pub mod Filled
use irengine.Common.{
  ℕ, ◌+◌, ◌-◌, ◌==◌, ◌&&◌, ltb, if◌then◌else◌, Bool, true, false, Option, none, some, List, [], ◌∷◌,
  ◌++◌, Text, codes, Dict, text_key, lookup, insert, remove, split, trim_space, is_space,
}
use irengine.Indexer.SkipMap.{SkipMap}
use irengine.Indexer.Entry.{Entry, serialize, scan}
use irengine.Indexer.PostingList.{PostingList, entry_count, insert_complete_entry}

-- The fields but the tag. `pl_init` is the posting list that the initializer creates.
pub record PostingListSet (S : SkipMap Entry) : Type 0 where
  pub list_map : Dict Text (PostingList S)
  pub pl_init : PostingList S
  pub size : ℕ
  pub size_needs_refresh : Bool

abbrev pub is_blank : Text → Bool
is_blank [] = true
is_blank (c ∷ s) = is_space c && is_blank s

-- `fmt.Sscanln` into one entry: behind it only spaces may follow. `none` is an error.
unfoldable pub sscanln : Entry → Text → Option Entry
unfolding scan
sscanln e s = elim (scan e s) [
  | none ↦ none
  | some (e', rest) ↦ if is_blank rest then some e' else none
]

-- `bufio.ScanLines`: a carriage return at the end of a line goes, and so does an empty last line.
unfoldable pub drop_return : Text → Text
drop_return [] = []
drop_return (c ∷ []) = if c == 13 then [] else c ∷ []
drop_return (c ∷ d ∷ s) = c ∷ drop_return (d ∷ s)

abbrev pub utf8_length : ℕ → ℕ
utf8_length c = if ltb c 0x80 then 1 else if ltb c 0x800 then 2 else if ltb c 0x10000 then 3 else 4

abbrev pub byte_length : Text → ℕ
byte_length [] = 0
byte_length (c ∷ s) = utf8_length c + byte_length s

-- A line fits into the scanner's buffer, `bufio.MaxScanTokenSize`, with its end.
abbrev pub max_scan_token_size : ℕ
max_scan_token_size = 65536

-- The scanner stops at the first line that does not fit.
unfoldable pub lines_of : List Text → List Text
unfolding drop_return
lines_of [] = []
lines_of ([] ∷ []) = []
lines_of ((c ∷ s) ∷ []) =
    if ltb (byte_length (c ∷ s)) max_scan_token_size then drop_return (c ∷ s) ∷ [] else []
lines_of (l ∷ m ∷ ls) =
    let rest = lines_of (m ∷ ls) in
    if ltb (byte_length l) max_scan_token_size then drop_return l ∷ rest else []

unfoldable pub scan_lines : Text → List Text
unfolding lines_of
scan_lines s = lines_of (split 10 s)

abbrev pub dump_line : Text → Entry → Text
dump_line term pl_entry = term ++ (codes " # " ++ serialize pl_entry)

module _ (S : SkipMap Entry) where
  open S use {entries}

  -- `NewPostingListSet`
  unfoldable pub new_posting_list_set : PostingList S → PostingListSet S
  new_posting_list_set init = record {
    list_map = [];
    pl_init = init;
    size = 0;
    size_needs_refresh = false;
  }

  -- The list of a term, or a new one.
  abbrev pub list_or_new : PostingListSet S → Text → PostingList S
  list_or_new pls term = elim (lookup term pls.list_map) [ none ↦ pls.pl_init | some pl ↦ pl ]

  -- `Get`
  unfoldable pub get_list : PostingListSet S → Text → PostingListSet S × PostingList S
  get_list pls term =
      let pl = list_or_new pls term in
      (record pls { list_map = insert term pl pls.list_map; size_needs_refresh = true }, pl)

  -- `TransferPL`: the source, the destination and the length; `none` is the panic.
  unfoldable pub transfer_pl :
      (PostingListSet S
        → PostingListSet S
        → Text
        → Option (PostingListSet S × PostingListSet S × ℕ))
  transfer_pl src dst term = elim (lookup term src.list_map) [
    | none ↦ none
    | some pl ↦
        let sz = entry_count S pl in
        some (
          record src { size = src.size - sz; list_map = remove term src.list_map },
          record dst { list_map = insert term pl dst.list_map; size = dst.size + sz },
          sz,
        )
  ]

  -- One entry that `Load` has read of a term.
  unfoldable pub add_entry : PostingListSet S → Text → Entry → PostingListSet S
  add_entry pls term pl_entry = record pls {
    list_map = insert term (insert_complete_entry S (list_or_new pls term) pl_entry) pls.list_map;
    size = pls.size + 1;
  }

  -- One line of `Load`; `none` is a panic. (The list of the last term, which the code keeps at hand, is
  -- the one in the map.)
  unfoldable pub load_line : PostingListSet S → Text → Option (PostingListSet S)
  unfolding sscanln add_entry
  load_line pls line = elim (split b'#' line) [
    | [] ↦ none
    | first ∷ rest ↦ elim (trim_space first) [
      | [] ↦ some pls
      | c ∷ term ↦ elim rest [
        | [] ↦ none
        | second ∷ more ↦ elim (sscanln (pls.pl_init.entry_factory 0) second) [
          | none ↦ none
          | some pl_entry ↦ some (add_entry pls (c ∷ term) pl_entry)
        ]
      ]
    ]
  ]

  unfoldable pub load_lines : PostingListSet S → List Text → Option (PostingListSet S)
  unfolding load_line
  load_lines pls [] = some pls
  load_lines pls (line ∷ lines) = elim (load_line pls line) [
    | none ↦ none
    | some pls' ↦ load_lines pls' lines
  ]

  -- `Load`
  unfoldable pub load : PostingListSet S → Text → Option (PostingListSet S)
  unfolding load_lines scan_lines
  load pls text = load_lines pls (scan_lines text)

  unfoldable pub dump_list : Text → List (ℕ × Entry) → Text
  dump_list term [] = []
  dump_list term ((k, pl_entry) ∷ rest) = dump_line term pl_entry ++ (10 ∷ dump_list term rest)

  unfoldable pub dump_map : Dict Text (PostingList S) → Text
  unfolding dump_list
  dump_map [] = []
  dump_map ((term, pl) ∷ rest) = dump_list term (entries pl.list) ++ dump_map rest

  -- `Dump`, in an order of the terms
  unfoldable pub dump : PostingListSet S → Text
  unfolding dump_map
  dump pls = dump_map pls.list_map

  -- `RecalculateLen`
  unfoldable pub sum_lengths : Dict Text (PostingList S) → ℕ
  sum_lengths [] = 0
  sum_lengths ((term, pl) ∷ rest) = entry_count S pl + sum_lengths rest

  unfoldable pub recalculate_len : PostingListSet S → PostingListSet S
  unfolding sum_lengths
  recalculate_len pls = record pls { size = sum_lengths pls.list_map }
