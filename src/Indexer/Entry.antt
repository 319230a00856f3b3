-- ===== src/Indexer/Entry.antt =====
-- The entries of posting lists: `basic_sk_entry` and `positional_sk_entry` of
-- indexer/positional_postinglist.go.
pub mod Sorting
pub mod RoundTrip
pub mod Chars
use irengine.Common.{
  ℕ, zero, suc, ◌+◌, ◌%◌, ◌^◌, leb, if◌then◌else◌, Option, none, some, List, [], ◌∷◌, ◌++◌, length,
  Text, is_digit, is_space, format_int, parse_int,
}

-- `sort.Ints`
abbrev pub sort_insert : ℕ → List ℕ → List ℕ
sort_insert x [] = x ∷ []
sort_insert x (y ∷ ys) = if leb x y then x ∷ y ∷ ys else y ∷ sort_insert x ys

abbrev pub sort_ints : List ℕ → List ℕ
sort_ints [] = []
sort_ints (x ∷ xs) = sort_insert x (sort_ints xs)

-- The two implementations of `PostingListEntry`. A basic entry embeds a positional one, of which
-- it uses the document alone.
pub data Entry : Type 0 where
  basic : ℕ → ℕ → Entry
  positional : ℕ → List ℕ → Entry

unfoldable pub new_basic_entry : ℕ → Entry
new_basic_entry doc_id = basic doc_id 0

unfoldable pub new_positional_entry : ℕ → Entry
new_positional_entry doc_id = positional doc_id []

unfoldable pub doc_id : Entry → ℕ
doc_id (basic d n) = d
doc_id (positional d ps) = d

unfoldable pub frequency : Entry → ℕ
frequency (basic d n) = n
frequency (positional d ps) = length ps

unfoldable pub positions : Entry → List ℕ
positions (basic d n) = []
positions (positional d ps) = ps

unfoldable pub add_position : Entry → ℕ → Entry
add_position (basic d n) pos = basic d (n + 1)
add_position (positional d ps) pos = positional d (sort_ints (ps ++ pos ∷ []))

-- The loop of `Serialize` over the positions.
join_positions : List ℕ → Text
join_positions [] = []
join_positions (p ∷ []) = format_int p
join_positions (p ∷ q ∷ ps) = format_int p ++ b' ' ∷ join_positions (q ∷ ps)

unfoldable pub serialize : Entry → Text
unfolding join_positions
serialize (basic d n) = format_int d ++ b' ' ∷ format_int n
serialize (positional d ps) = format_int d ++ b' ' ∷ join_positions ps

-- `SerializeTo` writes the document and a space; of a basic entry it does not write the frequency.
-- `none` is the panic on an entry without positions.
unfoldable pub serialize_to : Entry → Option Text
unfolding join_positions
serialize_to (basic d n) = some (format_int d ++ b' ' ∷ [])
serialize_to (positional d []) = none
serialize_to (positional d (p ∷ ps)) = some (format_int d ++ b' ' ∷ join_positions (p ∷ ps))

-- `state.SkipSpace` on a text of one line
skip_space : Text → Text
skip_space [] = []
skip_space (c ∷ s) = let rest = skip_space s in if is_space c then rest else c ∷ s

-- The longest prefix of digits, and what follows it.
take_digits : Text → Text × Text
take_digits [] = ([], [])
take_digits (c ∷ s) =
    let (ds, rest) = take_digits s in if is_digit c then (c ∷ ds, rest) else ([], c ∷ s)

-- `state.Token(true, unicode.IsDigit)`
token : Text → Text × Text
unfolding skip_space take_digits
token s = take_digits (skip_space s)

-- `filereader.DocumentId(n)` keeps 32 bits.
abbrev pub to_document_id : ℕ → ℕ
to_document_id n = n % 2 ^ 32

-- The loop of `Scan` of a positional entry. A round reads one character at least, so more rounds
-- than characters are enough fuel.
scan_positions : ℕ → Text → Entry → Option (Entry × Text)
unfolding token
scan_positions zero s e = some (e, s)
scan_positions (suc f) s e =
    let (ds, rest) = token s in
    elim ds [
      | [] ↦ some (e, rest)
      | c ∷ cs ↦ elim (parse_int 32 (c ∷ cs)) [
        | none ↦ none
        | some p ↦ scan_positions f rest (add_position e p)
      ]
    ]

-- `p.docId = …` of both implementations
abbrev set_doc_id : ℕ → Entry → Entry
set_doc_id d (basic _ n) = basic d n
set_doc_id d (positional _ ps) = positional d ps

-- What `Scan` reads behind the document.
scan_rest : Entry → Text → Option (Entry × Text)
unfolding scan_positions
scan_rest (basic d _) s =
    let (ds, rest) = token s in
    elim (parse_int 32 ds) [ none ↦ none | some n ↦ some (basic d n, rest) ]
scan_rest (positional d ps) s = scan_positions (suc (length s)) s (positional d ps)

-- `Scan`: the entry that was read, and the text that is left. `none` is an error.
unfoldable pub scan : Entry → Text → Option (Entry × Text)
unfolding scan_rest
scan e s =
    let (ds, rest) = token s in
    elim (parse_int 64 ds) [
      | none ↦ none
      | some n ↦ scan_rest (set_doc_id (to_document_id n) e) rest
    ]
