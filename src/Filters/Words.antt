-- ===== src/Filters/Words.antt =====
-- The filters that look at one token: basic.go, slashes.go, acronyms.go, specialtext.go,
-- stopwords.go and porter.go of indexer/filters.
pub mod Place
pub mod Slash
pub mod Digits
use irengine.Common.{
  ℕ, ◌==◌, ltb, leb, if◌then◌else◌, Bool, true, false, not, ◌&&◌, ◌||◌, Option, none, some, List,
  [], ◌∷◌, ◌++◌, length, select, Text, codes, text_eq, concat, Dict, text_key, lookup, insert,
  is_ascii_digit, to_lower, parse_int, split,
}
use irengine.FileReader.Token.{Token, clone, clone_with_text, TokenType, type_eq}
use irengine.Filters.Plumbing.{Filter}

-- A text of decimal digits that is not empty: `\d+`.
all_digits : Text → Bool
all_digits [] = true
all_digits (c ∷ s) = is_ascii_digit c && all_digits s

pub is_number : Text → Bool
unfolding all_digits
is_number [] = false
is_number (c ∷ s) = all_digits (c ∷ s)

pub are_numbers : List Text → Bool
unfolding is_number
are_numbers [] = true
are_numbers (p ∷ ps) = is_number p && are_numbers ps

-- The groups of `DigitsRegex`, whose match is the only one: no class has `,` or `.`.
match_parts : List Text → Option (Text × Text)
match_parts (whole ∷ []) = if are_numbers (split b',' whole) then some (whole, []) else none
match_parts (whole ∷ decimals ∷ []) =
    if are_numbers (split b',' whole) && is_number decimals then some (whole, decimals) else none
match_parts _ = none

match_digits : Text → Option (Text × Text)
unfolding match_parts are_numbers
match_digits s = match_parts (split b'.' s)

-- The loop over `thousands`: each group but the first has three digits.
are_thousands : List Text → Bool
are_thousands [] = true
are_thousands (entry ∷ rest) = length entry == 3 && are_thousands rest

is_grouped : List Text → Bool
unfolding are_thousands
is_grouped [] = true
is_grouped (first ∷ rest) = are_thousands rest

-- `"." + m[2]` if that is a number above 0 that `Atoi` reads.
unfoldable pub decimal_part : Text → Text
decimal_part decimals = elim (parse_int 64 decimals) [
  | none ↦ []
  | some n ↦ if ltb 0 n then b'.' ∷ decimals else []
]

unfoldable pub digits_repr : Text → Option Text
unfolding match_digits is_grouped decimal_part
digits_repr s = elim (match_digits s) [
  | none ↦ none
  | some (whole, decimals) ↦
      let thousands = split b',' whole in
      if is_grouped thousands then some (concat thousands ++ decimal_part decimals) else none
]

-- `DigitsFilter.Apply`
unfoldable pub digits_apply : Token → List Token
digits_apply tok = elim (digits_repr tok.text) [
  | none ↦ tok ∷ []
  | some repr ↦
      if not (text_eq repr tok.text) then clone_with_text tok (repr ∷ []) ∷ [] else tok ∷ []
]

abbrev pub map_text : (ℕ → ℕ) → Text → Text
map_text f [] = []
map_text f (c ∷ s) = f c ∷ map_text f s

-- `LowerCaseFilter.Apply`
unfoldable pub lower_apply : Token → List Token
lower_apply tok = record (clone tok) { text = map_text to_lower tok.text } ∷ []

-- `NullFilter.Apply`
unfoldable pub null_apply : Token → List Token
null_apply tok = tok ∷ []

texts_of : Token → List Text → List Token
texts_of tok [] = []
texts_of tok (part ∷ parts) = clone_with_text tok (part ∷ []) ∷ texts_of tok parts

-- `SlashFilter.Apply`
unfoldable pub slash_apply : Token → List Token
unfolding texts_of
slash_apply tok =
    let parts = split b'/' tok.text in if ltb 1 (length parts) then texts_of tok parts else tok ∷ []

is_upper : ℕ → Bool
is_upper c = leb b'A' c && leb c b'Z'

is_lower : ℕ → Bool
is_lower c = leb b'a' c && leb c b'z'

-- `[a-z]*\.[A-Z]`
lowers_then_initial : Text → Bool
unfolding is_upper is_lower
lowers_then_initial [] = false
lowers_then_initial (c ∷ []) = false
lowers_then_initial (c ∷ d ∷ s) =
    c == b'.' && is_upper d || is_lower c && lowers_then_initial (d ∷ s)

-- `acronymRegex.MatchString`: a match somewhere, for which one repetition is enough.
unfoldable pub is_acronym : Text → Bool
unfolding lowers_then_initial
is_acronym [] = false
is_acronym (c ∷ s) = is_upper c && lowers_then_initial s || is_acronym s

-- `AcronymFilter.Apply`
unfoldable pub acronym_apply : Token → List Token
acronym_apply tok =
    if is_acronym tok.text
    then record (clone tok) {
      text = map_text to_lower (select (λ c. not (c == b'.')) tok.text);
      final = true;
    }
      ∷ []
    else tok ∷ []

file_extensions : List Text
file_extensions =
    codes "aiff"
    ∷ codes "aif"
    ∷ codes "au"
    ∷ codes "avi"
    ∷ codes "bat"
    ∷ codes "bmp"
    ∷ codes "class"
    ∷ codes "java"
    ∷ codes "csk"
    ∷ codes "cvs"
    ∷ codes "dbf"
    ∷ codes "dif"
    ∷ codes "doc"
    ∷ codes "docx"
    ∷ codes "eps"
    ∷ codes "exe"
    ∷ codes "fm"
    ∷ codes "gif"
    ∷ codes "hqx"
    ∷ codes "htm"
    ∷ codes "html"
    ∷ codes "jpg"
    ∷ codes "mac"
    ∷ codes "map"
    ∷ codes "mdb"
    ∷ codes "mid"
    ∷ codes "midi"
    ∷ codes "mov"
    ∷ codes "qt"
    ∷ codes "mtb"
    ∷ codes "mtw"
    ∷ codes "pdf"
    ∷ codes "p"
    ∷ codes "t"
    ∷ codes "png"
    ∷ codes "ppt"
    ∷ codes "psd"
    ∷ codes "psp"
    ∷ codes "qxd"
    ∷ codes "ra"
    ∷ codes "sit"
    ∷ codes "tar"
    ∷ codes "tif"
    ∷ codes "txt"
    ∷ codes "wav"
    ∷ codes "xls"
    ∷ codes "xlsx"
    ∷ codes "zip"
    ∷ []

abbrev pub member_char : ℕ → Text → Bool
member_char c [] = false
member_char c (d ∷ s) = d == c || member_char c s

abbrev pub member : Text → List Text → Bool
member s [] = false
member s (t ∷ ts) = text_eq t s || member s ts

abbrev last_text : List Text → Text
last_text [] = []
last_text (p ∷ []) = p
last_text (p ∷ q ∷ ps) = last_text (q ∷ ps)

abbrev but_last : List Text → List Text
but_last [] = []
but_last (p ∷ []) = []
but_last (p ∷ q ∷ ps) = p ∷ but_last (q ∷ ps)

-- `FilenameFilter.Apply`
unfoldable pub filename_apply : Token → List Token
unfolding file_extensions
filename_apply tok =
    let parts = split b'.' tok.text in
    if ltb 1 (length parts) && member (last_text parts) file_extensions
    then clone_with_text tok (but_last parts) ∷ tok ∷ []
    else tok ∷ []

-- `NewStopWordFilterFromReader`, given the words of the file.
unfoldable pub load_stopwords : List Text → Dict Text ℕ → Dict Text ℕ
load_stopwords [] stopwords = stopwords
load_stopwords (w ∷ ws) stopwords = load_stopwords ws (insert w 0 stopwords)

-- `StopWordFilter.Apply`
unfoldable pub stopword_apply : Dict Text ℕ → Token → List Token
stopword_apply stopwords tok = elim (lookup tok.text stopwords) [ none ↦ tok ∷ [] | some n ↦ [] ]

-- `PorterFilter.Apply` over the package go-stem: `none` is a panic, which the filter recovers from.
unfoldable pub porter_apply : (Text → Option Text) → Token → List Token
porter_apply stem tok = elim (stem tok.text) [
  | none ↦ tok ∷ []
  | some stemmed ↦ clone_with_text tok (stemmed ∷ []) ∷ []
]

-- A filter without a state of its own.
abbrev pub word_filter : Text → Bool → (Token → List Token) → Filter
word_filter id ignores_final apply = record {
  State = Unit {0};
  id = id;
  ignores_final = ignores_final;
  apply = λ s tok. (s, apply tok);
  notify_doc_complete = λ s. (s, []);
}

unfoldable pub new_lower_case_filter : Filter
new_lower_case_filter = word_filter (codes "lower") true lower_apply

unfoldable pub new_digits_filter : Filter
new_digits_filter = word_filter (codes "digits") false digits_apply

unfoldable pub new_null_filter : Filter
new_null_filter = word_filter (codes "null") false null_apply

unfoldable pub new_slash_filter : Filter
new_slash_filter = word_filter (codes "slashes") false slash_apply

unfoldable pub new_acronym_filter : Filter
new_acronym_filter = word_filter (codes "acronyms") false acronym_apply

unfoldable pub new_filename_filter : Filter
new_filename_filter = word_filter (codes "filename") false filename_apply

unfoldable pub new_stop_word_filter : List Text → Filter
new_stop_word_filter words =
    word_filter (codes "stopwords") false (stopword_apply (load_stopwords words []))

unfoldable pub new_porter_filter : (Text → Option Text) → Filter
new_porter_filter stem = word_filter (codes "porter") false (porter_apply stem)
