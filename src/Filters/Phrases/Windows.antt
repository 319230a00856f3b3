-- ===== src/Filters/Phrases/Windows.antt =====
-- The phrases of a document, read by keeping the terms of the phrase themselves.
use irengine.Common.{ℕ, ◌+◌, Option, none, some, List, [], ◌∷◌, ◌++◌, Text, Dict, text_key}
use irengine.FileReader.Token.{Token}
use irengine.Filters.Phrases.{
  non_terminal, diff_phrase_id, stop_word, max_len, ends_phrase, make_phrase,
}

-- A document's phrases, given the terms of the one that is being read: what a list of tokens ends.
abbrev pub tail : List Token → List Token
tail [] = []
tail (t ∷ ts) = ts

-- A finished phrase, if it has a term, and the phrases after it.
abbrev pub ended : List Token → List (List Token) → List (List Token)
ended [] rest = rest
ended (t ∷ ts) rest = (t ∷ ts) ∷ rest

-- The phrases of a document: `phrase` is the one that is being read, and the last one is not ended.
unfoldable pub phrases : Dict Text ℕ → ℕ → List Token → List Token → List (List Token)
phrases stopwords phrase_len phrase [] = []
phrases stopwords phrase_len phrase (t ∷ ts) = elim (ends_phrase stopwords phrase_len phrase t) [
  | stop_word ↦ ended phrase (phrases stopwords phrase_len [] ts)
  | diff_phrase_id ↦ ended phrase (phrases stopwords phrase_len (t ∷ []) ts)
  | max_len ↦ ended phrase (phrases stopwords phrase_len (tail phrase ++ t ∷ []) ts)
  | non_terminal ↦ phrases stopwords phrase_len (phrase ++ t ∷ []) ts
]

abbrev cons_option : Option Token → List Token → List Token
cons_option none l = l
cons_option (some t) l = t ∷ l

-- The tokens of a list of phrases, at the positions from `n` on.
unfoldable pub numbered : ℕ → List (List Token) → List Token
unfolding make_phrase
numbered n [] = []
numbered n (p ∷ ps) = cons_option (make_phrase p n) (numbered (n + 1) ps)
