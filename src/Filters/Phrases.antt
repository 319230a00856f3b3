-- ===== src/Filters/Phrases.antt =====
-- `PhraseFilter` of indexer/filters/phrases.go. Whether the normalized frequency of a term is below
-- the limit, a test on floating-point numbers, is a parameter: `below_limit frequency maxfreq`.
pub mod Windows
pub mod Slices
pub mod Rounds
pub mod Sound
pub mod Counts
use irengine.Common.{
  ℕ, zero, suc, ◌+◌, ◌-◌, ◌==◌, ltb, leb, if◌then◌else◌, Bool, true, false, not, ◌&&◌, Option, none,
  some, List, [], ◌∷◌, ◌++◌, length, Text, codes, Dict, text_key, lookup, insert,
}
use irengine.FileReader.Token.{Token, TokenType, text_token, new_token}
use irengine.Filters.Plumbing.{Filter}

pub data TerminateReason : Type 0 where
  non_terminal diff_phrase_id stop_word max_len : TerminateReason

-- The fields of the filter; the limit is the parameter of `notify_doc_complete`.
pub record PhraseFilter : Type 0 where
  pub stopwords : Dict Text ℕ
  pub phrase_len : ℕ
  pub maxfreq : ℕ
  pub tokenbuffer : List Token

unfoldable pub reset : PhraseFilter → PhraseFilter
reset f = record f { tokenbuffer = []; stopwords = []; maxfreq = 0 }

-- `NewPhraseFilter`
unfoldable pub new_phrase_filter : ℕ → PhraseFilter
unfolding reset
new_phrase_filter phrase_len =
    reset (record { stopwords = []; phrase_len = phrase_len; maxfreq = 0; tokenbuffer = [] })

unfoldable pub ends_phrase : Dict Text ℕ → ℕ → List Token → Token → TerminateReason
ends_phrase stopwords phrase_len phrase token = elim (lookup token.text stopwords) [
  | some n ↦ stop_word
  | none ↦ elim phrase [
    | [] ↦ non_terminal
    | first ∷ rest ↦
        if not (first.phrase_id == token.phrase_id)
        then diff_phrase_id
        else if leb phrase_len (length (first ∷ rest))
        then max_len
        else non_terminal
  ]
]

-- The texts with a space between two of them.
abbrev pub spaced : List Token → Text
spaced [] = []
spaced (t ∷ []) = t.text
spaced (t ∷ u ∷ ts) = t.text ++ (b' ' ∷ spaced (u ∷ ts))

-- `makePhrase`; `none` is the nil token.
unfoldable pub make_phrase : List Token → ℕ → Option Token
unfolding new_token
make_phrase [] position = none
make_phrase (t ∷ ts) position = some (record (new_token (spaced (t ∷ ts)) text_token) {
  doc_id = t.doc_id;
  final = true;
  position = position;
})

abbrev pub take : ℕ → List Token → List Token
take zero l = []
take (suc n) [] = []
take (suc n) (t ∷ l) = t ∷ take n l

abbrev pub drop : ℕ → List Token → List Token
drop zero l = l
drop (suc n) [] = []
drop (suc n) (t ∷ l) = drop n l

-- `l[lo:hi]`, which panics out of range.
unfoldable pub slice : List Token → ℕ → ℕ → Option (List Token)
slice l lo hi = if leb lo hi && leb hi (length l) then some (take (hi - lo) (drop lo l)) else none

-- The variables of the loop of `NotifyDocComplete` and what it has sent.
pub record Loop : Type 0 where
  pub start_idx : ℕ
  pub end_idx : ℕ
  pub position_counter : ℕ
  pub sent : List Token

-- `makePhrase`, `Send` and the counter, as each of the three cases has them.
unfoldable pub send_phrase : Loop → List Token → Loop
unfolding make_phrase
send_phrase l phrase_terms = elim (make_phrase phrase_terms l.position_counter) [
  | none ↦ l
  | some phrase ↦ record l {
    sent = l.sent ++ phrase ∷ [];
    position_counter = l.position_counter + 1;
  }
]

-- The switch of the loop, at index `i`.
unfoldable pub switch : TerminateReason → ℕ → List Token → Loop → Loop
unfolding send_phrase
switch stop_word i phrase_terms l = record (send_phrase l phrase_terms) {
  start_idx = i + 1;
  end_idx = i + 1;
}
switch diff_phrase_id i phrase_terms l = record (send_phrase l phrase_terms) {
  start_idx = i;
  end_idx = i + 1;
}
switch max_len i phrase_terms l = record (send_phrase l phrase_terms) {
  start_idx = l.start_idx + 1;
  end_idx = l.end_idx + 1;
}
switch non_terminal i phrase_terms l = record l { end_idx = l.end_idx + 1 }

-- The index beyond the buffer is moved to its last element.
unfoldable pub clamp : ℕ → Loop → Loop
clamp len l = if leb len l.end_idx then record l { end_idx = len - 1 } else l

-- The end of a round: `break`, a panic of the slice, or the next round.
pub data Round : Type 0 where
  broken : List Token → Round
  panicked : Round
  continued : List Token → Loop → Round

unfoldable pub end_round : List Token → Loop → Round
unfolding clamp slice
end_round buffer l =
    if l.start_idx == length buffer
    then broken l.sent
    else let l' = clamp (length buffer) l in
      elim (slice buffer l'.start_idx l'.end_idx) [
        | none ↦ panicked
        | some terms ↦ continued terms l'
      ]

-- The `range` over the tokens from index `i`: what is sent, or `none` for a panic.
unfoldable pub phrase_loop :
    (Dict Text ℕ → ℕ → List Token → ℕ → List Token → List Token → Loop → Option (List Token))
unfolding ends_phrase switch end_round
phrase_loop stopwords phrase_len buffer i [] phrase_terms l = some l.sent
phrase_loop stopwords phrase_len buffer i (token ∷ tokens) phrase_terms l =
    elim (end_round buffer
      (switch (ends_phrase stopwords phrase_len phrase_terms token) i phrase_terms l)) [
        | broken sent ↦ some sent
        | panicked ↦ none
        | continued terms l' ↦ phrase_loop stopwords phrase_len buffer (i + 1) tokens terms l'
      ]

-- The terms that stay stop words.
frequent : (ℕ → ℕ → Bool) → ℕ → Dict Text ℕ → Dict Text ℕ
frequent below_limit maxfreq [] = []
frequent below_limit maxfreq ((term, frequency) ∷ m) =
    let rest = frequent below_limit maxfreq m in
    if below_limit frequency maxfreq then rest else (term, frequency) ∷ rest

-- The stop words of a document; a short one has none.
unfoldable pub document_stopwords : (ℕ → ℕ → Bool) → PhraseFilter → Dict Text ℕ
unfolding frequent
document_stopwords below_limit f =
    let kept = frequent below_limit f.maxfreq f.stopwords in
    if ltb (length f.tokenbuffer) 25 then [] else kept

unfoldable pub start : Loop
start = record { start_idx = 0; end_idx = 0; position_counter = 0; sent = [] }

-- `NotifyDocComplete`: the reset filter and the tokens sent, or `none` for a panic.
unfoldable pub notify_doc_complete :
    (ℕ → ℕ → Bool) → PhraseFilter → Option (PhraseFilter × List Token)
unfolding document_stopwords phrase_loop start slice reset
notify_doc_complete below_limit f = elim (slice f.tokenbuffer 0 0) [
  | none ↦ none
  | some terms ↦
      elim (phrase_loop (document_stopwords below_limit f) f.phrase_len f.tokenbuffer 0
        f.tokenbuffer terms start) [ none ↦ none | some sent ↦ some (reset f, sent) ]
]

-- The value of a missing key is 0.
abbrev pub or_zero : Option ℕ → ℕ
or_zero none = 0
or_zero (some n) = n

abbrev pub count_of : Text → Dict Text ℕ → ℕ
count_of t m = or_zero (lookup t m)

-- `PhraseFilter.Apply`, which sends nothing.
unfoldable pub phrase_apply : PhraseFilter → Token → PhraseFilter × List Token
phrase_apply f tok =
    let freq = count_of tok.text f.stopwords + 1 in
    (
      record f {
        tokenbuffer = f.tokenbuffer ++ tok ∷ [];
        stopwords = insert tok.text freq f.stopwords;
        maxfreq = (if ltb f.maxfreq freq then freq else f.maxfreq);
      },
      [],
    )
