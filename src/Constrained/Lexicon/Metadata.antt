-- ===== src/Constrained/Lexicon/Metadata.antt =====
-- `WriteMetadata` and `ReadMetadata` of indexer/constrained/lexicon.go. The initializer of a lexicon is
-- told by the posting list that it makes; `none` is a panic.
pub mod RoundTrip
use irengine.Common.{
  ℕ, zero, suc, ◌^◌, ◌==◌, ltb, if◌then◌else◌, ◌&&◌, Bool, true, false, Option, none, some, List,
  [], ◌∷◌, ◌++◌, ℤ, pos, negsuc, Text, text_eq, codes, format_int, parse_int, length,
}
use irengine.Indexer.SkipMap.{SkipMap}
use irengine.Indexer.Entry.{Entry}
use irengine.Indexer.PostingList.{PostingList, create_basic, create_positional}
use irengine.Constrained.PostingListSet.{scan_lines}
use irengine.Constrained.Lexicon.{Lexicon, set_max_load}

-- `%d` of an `int`
unfoldable pub format_signed : ℤ → Text
format_signed (pos n) = format_int n
format_signed (negsuc n) = b'-' ∷ format_int (suc n)

abbrev pub negated : ℕ → Option ℤ
negated zero = some (pos 0)
negated (suc n) = if ltb n (2 ^ 63) then some (negsuc n) else none

abbrev pub not_negated : Option ℕ → Option ℤ
not_negated none = none
not_negated (some n) = some (pos n)

-- `strconv.Atoi`; `none` is a syntax or a range error.
unfoldable pub parse_signed : Text → Option ℤ
parse_signed [] = none
parse_signed (c ∷ s) =
    if c == b'-'
    then elim (parse_int 65 s) [ none ↦ none | some n ↦ negated n ]
    else if c == b'+'
    then not_negated (parse_int 64 s)
    else not_negated (parse_int 64 (c ∷ s))

-- `strings.SplitN(s, " ", 2)`: what is before the first space and, if there is one, behind it.
unfoldable pub split_first : Text → Text × Option Text
split_first [] = ([], none)
split_first (c ∷ s) =
    let (first, rest) = split_first s in if c == b' ' then ([], some s) else (c ∷ first, rest)

abbrev pub metadata_line : Text → Text → Text
metadata_line name value = name ++ (b' ' ∷ value)

module _ (S : SkipMap Entry) where
  -- `Name` of the initializer
  abbrev pub pl_type : PostingList S → Text
  pl_type init = if init.is_positional then codes "positional" else codes "basic"

  -- `WriteMetadata`
  unfoldable pub write_metadata : Lexicon S → Text
  unfolding format_signed
  write_metadata lex =
      metadata_line (codes "pls_count") (format_int (length lex.pl_set_cache))
      ++ (10
          ∷ (metadata_line (codes "pl_type") (pl_type lex.pl_init)
              ++ (10
                  ∷ (metadata_line (codes "memlimit") (format_signed lex.max_load) ++ (10 ∷ [])))))

  -- What the loop of `ReadMetadata` changes.
  pub record Metadata : Type 0 where
    pub lex : Lexicon S
    pub have_memlimit : Bool
    pub have_pltype : Bool

  abbrev pub with_limit : Metadata → Option ℤ → Option Metadata
  with_limit m none = none
  with_limit m (some limit) =
      some (record m { lex = set_max_load S m.lex limit; have_memlimit = true })

  -- `SetPLInitializer`, which panics if the lexicon has terms.
  abbrev pub set_pl_initializer : ℕ → Lexicon S → PostingList S → Option (Lexicon S)
  set_pl_initializer zero lex init = some (record lex { pl_init = init })
  set_pl_initializer (suc n) lex init = none

  abbrev pub with_init : ℕ → Metadata → PostingList S → Option Metadata
  with_init terms m init = elim (set_pl_initializer terms m.lex init) [
    | none ↦ none
    | some lex ↦ some (record m { lex = lex; have_pltype = true })
  ]

  -- A line, for a lexicon of so many terms; the fields that it lacks are out of range.
  unfoldable pub read_field : ℕ → Metadata → Text → Option Text → Option Metadata
  unfolding parse_signed
  read_field terms m name value =
      if text_eq name (codes "memlimit")
      then elim value [ none ↦ none | some s ↦ with_limit m (parse_signed s) ]
      else if text_eq name (codes "pl_type")
      then elim value [
        | none ↦ none
        | some s ↦
            if text_eq s (codes "basic")
            then with_init terms m (create_basic S)
            else if text_eq s (codes "positional")
            then with_init terms m (create_positional S)
            else none
      ]
      else some m

  unfoldable pub read_fields : ℕ → Metadata → List Text → Option Metadata
  unfolding read_field split_first
  read_fields terms m [] = some m
  read_fields terms m (line ∷ lines) =
      elim (read_field terms m (split_first line).0 (split_first line).1) [
        | none ↦ none
        | some m' ↦ read_fields terms m' lines
      ]

  -- `ReadMetadata` of a lexicon with so many terms
  unfoldable pub read_metadata : ℕ → Lexicon S → Text → Option (Lexicon S)
  unfolding read_fields scan_lines
  read_metadata terms lex text =
      elim (read_fields terms (record { lex = lex; have_memlimit = false; have_pltype = false })
        (scan_lines text)) [
          | none ↦ none
          | some m ↦ if m.have_pltype && m.have_memlimit then some m.lex else none
        ]
