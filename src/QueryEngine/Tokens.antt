-- ===== src/QueryEngine/Tokens.antt =====
-- The tokens of a query: `getDocTokens` of query_engine/engine.go and `ThresholdQueryTerms` of
-- query_engine/threshold.go. A channel is the list of the tokens that it gives.
use irengine.Common.{ℕ, ◌+◌, if◌then◌else◌, Bool, Option, none, some, List, [], ◌∷◌, length}
use irengine.FileReader.Token.{Token, null_token, type_eq}

-- `getDocTokens` and what is left in the channel; `none` waits for a token that does not come.
unfoldable pub get_doc_tokens : List Token → Option (List Token × List Token)
get_doc_tokens [] = none
get_doc_tokens (token ∷ channel) =
    let rest = get_doc_tokens channel in
    if type_eq token.type null_token
    then some ([], channel)
    else elim rest [ none ↦ none | some (out, left) ↦ some (token ∷ out, left) ]

-- The loop of `ThresholdQueryTerms` over the tokens in the order of their idf. `in_first i n` is the
-- test `i / n < thresh`.
unfoldable pub group_from : (ℕ → ℕ → Bool) → ℕ → ℕ → List Token → List Token × List Token
group_from in_first n i [] = ([], [])
group_from in_first n i (token ∷ tokens) =
    let (first, second) = group_from in_first n (i + 1) tokens in
    ((if in_first i n then token ∷ first else first), token ∷ second)

unfoldable pub threshold_query_terms : (ℕ → ℕ → Bool) → List Token → List Token × List Token
unfolding group_from
threshold_query_terms in_first tokens = group_from in_first (length tokens) 0 tokens
