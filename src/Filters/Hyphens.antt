-- ===== src/Filters/Hyphens.antt =====
-- `HyphenFilter` of indexer/filters/hyphens.go.
pub mod Place
pub mod Laws
use irengine.Common.{
  ℕ, ◌+◌, ◌==◌, leb, if◌then◌else◌, Bool, true, false, not, ◌&&◌, ◌||◌, Option, none, some, List,
  [], ◌∷◌, ◌++◌, length, Text, codes, concat, is_ascii_digit, is_digit, is_hyphen, split,
}
use irengine.FileReader.Token.{Token, clone, clone_with_text}
use irengine.Filters.Plumbing.{Filter}
use irengine.Filters.Words.{member, word_filter}

abbrev all_chars : (ℕ → Bool) → Text → Bool
all_chars p [] = true
all_chars p (c ∷ s) = p c && all_chars p s

-- `[p]+`
abbrev some_chars : (ℕ → Bool) → Text → Bool
some_chars p [] = false
some_chars p (c ∷ s) = all_chars p (c ∷ s)

-- `[A-z]`, which has `[`, `\`, `]`, `^`, `_` and the grave accent too
is_alpha : ℕ → Bool
is_alpha c = leb b'A' c && leb c b'z'

match_pair : (ℕ → Bool) → (ℕ → Bool) → List Text → Option (Text × Text)
match_pair p q (a ∷ b ∷ []) = if some_chars p a && some_chars q b then some (a, b) else none
match_pair p q _ = none

-- `alpha_num` and `num_alpha`: neither class has the hyphen, so a match splits at the only one.
match_alpha_num : Text → Option (Text × Text)
unfolding match_pair is_alpha
match_alpha_num s = match_pair is_alpha is_ascii_digit (split b'-' s)

match_num_alpha : Text → Option (Text × Text)
unfolding match_pair is_alpha
match_num_alpha s = match_pair is_ascii_digit is_alpha (split b'-' s)

pub word_prefixes : List Text
word_prefixes =
    codes "anti"
    ∷ codes "intra"
    ∷ codes "re"
    ∷ codes "co"
    ∷ codes "macro"
    ∷ codes "semi"
    ∷ codes "de"
    ∷ codes "micro"
    ∷ codes "sub"
    ∷ codes "hyper"
    ∷ codes "non"
    ∷ codes "supra"
    ∷ codes "hypo"
    ∷ codes "pre"
    ∷ codes "trans"
    ∷ codes "infra"
    ∷ codes "pseudo"
    ∷ codes "un"
    ∷ []

has_digit : Text → Bool
has_digit [] = false
has_digit (c ∷ s) = is_digit c || has_digit s

-- A field is over: an empty one is not kept.
end_field : Text → List Text → List Text
end_field [] fields = fields
end_field (c ∷ s) fields = (c ∷ s) ∷ fields

-- `strings.FieldsFunc(s, isHyphen)`, with the field that is being read.
fields_from : Text → Text → List Text
unfolding end_field
fields_from field [] = end_field field []
fields_from field (c ∷ s) = elim (is_hyphen c) [
  | true ↦ end_field field (fields_from [] s)
  | false ↦ fields_from (field ++ c ∷ []) s
]

unfoldable pub hyphen_fields : Text → List Text
unfolding fields_from
hyphen_fields s = fields_from [] s

final_text : Token → Text → Token
final_text tok text = record (clone tok) { text = text; final = true }

-- A matched pair: both parts in one, and the letters alone if there are three of them.
matched : Token → Text → Text → Text → List Token
unfolding final_text
matched tok a b letters =
    final_text tok (a ++ b) ∷ (if leb 3 (length letters) then final_text tok letters ∷ [] else [])

clones : Token → List Text → List Token
clones tok [] = []
clones tok (field ∷ fields) = clone_with_text tok (field ∷ []) ∷ clones tok fields

-- The switch on the number of fields.
split_fields : Token → List Text → List Token
unfolding clones word_prefixes
split_fields tok (a ∷ []) = tok ∷ []
split_fields tok (a ∷ b ∷ []) =
    if member a word_prefixes
    then clone_with_text tok (a ∷ b ∷ []) ∷ clone_with_text tok (b ∷ []) ∷ []
    else clone_with_text tok (a ∷ []) ∷ clone_with_text tok (b ∷ []) ∷ []
split_fields tok fields = clones tok fields ++ clone_with_text tok fields ∷ []

no_match : Token → List Token
unfolding has_digit split_fields hyphen_fields
no_match tok = if has_digit tok.text then tok ∷ [] else split_fields tok (hyphen_fields tok.text)

-- `HyphenFilter.Apply`
unfoldable pub hyphen_apply : Token → List Token
unfolding match_alpha_num match_num_alpha matched no_match
hyphen_apply tok = elim (match_alpha_num tok.text) [
  | some (a, n) ↦ matched tok a n a
  | none ↦ elim (match_num_alpha tok.text) [ some (n, a) ↦ matched tok n a a | none ↦ no_match tok ]
]

unfoldable pub new_hyphen_filter : Filter
new_hyphen_filter = word_filter (codes "hyphens") false hyphen_apply
