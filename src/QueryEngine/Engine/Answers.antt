-- ===== src/QueryEngine/Engine/Answers.antt =====
-- What an engine answers to a phrase query.
use irengine.Common.{
  ℕ, ◌+◌, ◌<◌, ◌≤◌, ◌≡◌, refl, sym, ap, ◌∙◌, ◌⊎◌, Bool, true, false, Option, none, some, List, [],
  ◌∷◌, ◌++◌, append-nil, append_assoc, length, arith, All, text_key, lookup, inl, inr,
}
use irengine.FileReader.Token.{Token, null_token, type_eq}
use irengine.QueryEngine.Tokens.{get_doc_tokens, group_from, threshold_query_terms}
use irengine.QueryEngine.Response.{
  Result, Response, items, append, mark_existing, append_missing, extend_unique,
}
use irengine.QueryEngine.Engine.{
  phrase_query, Query, Index, sends, thresholded, new_response_set, query_sets, send_json, answer,
}

-- Without documents to skip, everything is appended.
append_missing-none :
    {Score : Type 0} (rs : List (Result Score)) (o : Option (List (Result Score)))
    → append_missing [] rs o ≡ append o rs
unfolding append_missing
append_missing-none [] none = refl
append_missing-none [] (some l) = ap some (sym (append-nil l))
append_missing-none (r ∷ rs) none = append_missing-none rs (some (r ∷ []))
append_missing-none (r ∷ rs) (some l) =
    append_missing-none rs (some (l ++ r ∷ [])) ∙ ap some (append_assoc l (r ∷ []) rs)

-- The response that is sent for the results of a ranker
abbrev pub answered : {Score : Type 0} → Response Score → Response Score
answered response = record {
  results = append none (items response.results);
  error = [];
  source = [];
}

first_set :
    {Score : Type 0} (ranker : List Token → Bool → Option (Response Score)) (force : Bool)
    (terms : List Token) (more : List (List Token)) (response : Response Score)
    → ranker terms force ≡ some response
    → query_sets ranker force (terms ∷ more) new_response_set ≡ some (answered response)
unfolding query_sets extend_unique mark_existing
first_set ranker force terms more response h =
    rw (h, query_sets)
      (ap (λ o. some (record { results = o; error = []; source = [] }))
        (append_missing-none (items response.results) none))

-- The tokens before the end of a document are read.
get_doc_tokens-before :
    (out : List Token) (e : Token) (left : List Token)
    → All (λ t. type_eq t.type null_token ≡ false) out
    → type_eq e.type null_token ≡ true
    → get_doc_tokens (out ++ e ∷ left) ≡ some (out, left)
unfolding get_doc_tokens
get_doc_tokens-before [] e left h n = rw n refl
get_doc_tokens-before (t ∷ out) e left (w, h) n = rw (w, get_doc_tokens-before out e left h n) refl

-- The first group is the part at whose places the test holds.
no_group :
    (in_first : ℕ → ℕ → Bool) (n i : ℕ) (ts : List Token)
    → ((j : ℕ) → i ≤ j → in_first j n ≡ false)
    → (group_from in_first n i ts).0 ≡ []
unfolding group_from
no_group in_first n i [] above = refl
no_group in_first n i (t ∷ ts) above =
    rw (above i (omega arith)) (no_group in_first n (i + 1) ts (λ j h. above j (omega (arith, h))))

group-first :
    (in_first : ℕ → ℕ → Bool) (n i : ℕ) (front back : List Token)
    → ((j : ℕ) → i ≤ j → j < i + length front → in_first j n ≡ true)
    → ((j : ℕ) → i + length front ≤ j → in_first j n ≡ false)
    → (group_from in_first n i (front ++ back)).0 ≡ front
unfolding group_from
group-first in_first n i [] back below above =
    no_group in_first n i back (λ j h. above j (omega (arith, h)))
group-first in_first n i (t ∷ front) back below above = rw (below i (omega arith) (omega arith)) (
    ap (λ l. t ∷ l)
      (group-first in_first n (i + 1) front back
        (λ j g h. below j (omega (arith, g)) (omega (arith, h)))
        (λ j h. above j (omega (arith, h)))))

module _ {Score Thresh : Type 0} (index : Index Score Thresh) where
  -- The terms that the ranker is asked for: all tokens, or with a threshold below one the first part of
  -- the tokens in the order of their idf, at whose places the test of the threshold holds.
  abbrev pub IsAsked : Query Thresh → List Token → List Token → Type 0
  IsAsked query tokens terms =
      ((index.below_one query.query_thresh ≡ false) × (terms ≡ tokens))
      ⊎ ((index.below_one query.query_thresh ≡ true)
          × (rest : List Token) × (index.sort_idf tokens ≡ terms ++ rest)
          × ((i : ℕ)
              → i < length terms
              → index.in_first query.query_thresh i (length (terms ++ rest)) ≡ true)
          × ((i : ℕ)
              → length terms ≤ i
              → index.in_first query.query_thresh i (length (terms ++ rest)) ≡ false))

  thresholded-first :
      (query : Query Thresh) (tokens terms : List Token)
      → IsAsked query tokens terms
      → (more : List (List Token)) × (thresholded index query tokens ≡ terms ∷ more)
  unfolding thresholded threshold_query_terms
  thresholded-first query tokens terms (inl (one, all)) = rw (one, all) ([], refl)
  thresholded-first query tokens terms (inr (below, rest, order, inside, outside)) =
      let group =
        group-first (index.in_first query.query_thresh) (length (terms ++ rest)) 0 terms rest
          (λ j g h. inside j (omega (arith, h))) (λ j h. outside j (omega (arith, h))) in
      let second =
        (group_from (index.in_first query.query_thresh) (length (terms ++ rest)) 0
          (terms ++ rest)).1 in
      (second ∷ [], rw (below, order) (ap (λ l. l ∷ second ∷ []) group))

  -- A phrase query for a ranker that is there, with a document in the channel: the engine reads the
  -- tokens before the end of the document, asks the ranker for all of them, or with a threshold below
  -- one for the first part of them in the order of their idf, and sends its results, all of them in their
  -- order; no results are sent as nil, and the ranker's error message is not sent. What follows the end
  -- is left in the channel. The ranker does not panic, and the response can be written.
  pub answer_lem :
      (query : Query Thresh) (ranker : List Token → Bool → Option (Response Score))
      (out left terms : List Token) (e : Token) (response : Response Score)
      → query.type ≡ phrase_query
      → lookup query.engine index.ranking_engines ≡ some ranker
      → All (λ t. type_eq t.type null_token ≡ false) out
      → type_eq e.type null_token ≡ true
      → IsAsked query out terms
      → ranker terms query.force ≡ some response
      → index.marshals (answered response) ≡ true
      → answer index query (out ++ e ∷ left) ≡ sends (answered response) left
  unfolding answer send_json
  answer_lem query ranker out left terms e response t l words ends asked run fits =
      let (more, first) = thresholded-first query out terms asked in
      let sets : query_sets ranker query.force (thresholded index query out) new_response_set
          ≡ some (answered response) =
        ap (λ s. query_sets ranker query.force s new_response_set) first
        ∙ first_set ranker query.force terms more response run in
      rw (t, l, get_doc_tokens-before out e left words ends, sets, answer)
        (rw (fits, send_json) refl)
