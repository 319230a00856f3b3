-- ===== src/QueryEngine/Response.antt =====
-- `Response` of query_engine/response.go. A score is a floating-point number, which this code only
-- copies and compares: its type and its tests are parameters. A nil slice of results is `none`, and
-- the JSON text of a response is the record itself, since it keeps nil and the empty slice apart.
pub mod Unique
pub mod Wire
use irengine.Common.{
  ℕ, ◌==◌, if◌then◌else◌, Bool, true, false, not, ◌&&◌, Option, none, some, List, [], ◌∷◌, ◌++◌,
  length, Text, codes, text_eq, Dict, text_key, lookup, insert,
}

pub record Result (Score : Type 0) : Type 0 where
  pub document : Text
  pub score : Score
  pub info : Text

pub record Response (Score : Type 0) : Type 0 where
  pub results : Option (List (Result Score))
  pub error : Text
  pub source : Text

abbrev pub empty_results : Text
empty_results = codes "EMPTYRESULTS"

-- The elements of a slice; a nil slice has none.
abbrev pub items : {A : Type 0} → Option (List A) → List A
items none = []
items (some l) = l

-- `append(s, l...)`: nothing appended to a nil slice leaves it nil.
abbrev pub append : {A : Type 0} → Option (List A) → List A → Option (List A)
append none [] = none
append none (x ∷ xs) = some (x ∷ xs)
append (some l) xs = some (l ++ xs)

-- `IsError`'s test
abbrev pub is_nil : {A : Type 0} → Option (List A) → Bool
is_nil none = true
is_nil (some l) = false

abbrev pub is_empty : {A : Type 0} → List A → Bool
is_empty [] = true
is_empty (x ∷ xs) = false

module _ {Score : Type 0} where
  unfoldable pub result_equal : (Score → Score → Bool) → Result Score → Result Score → Bool
  result_equal score_eq r o =
      if not (text_eq r.document o.document)
      then false
      else if not (score_eq r.score o.score)
      then false
      else if not (text_eq r.info o.info)
      then false
      else true

  unfoldable pub error_response : Text → Response Score
  error_response msg = record { results = none; error = msg; source = [] }

  unfoldable pub new_response : Response Score
  new_response = record { results = some []; error = []; source = codes "DEFAULT" }

  unfoldable pub is_error : Response Score → Text × Bool
  is_error r = if is_nil r.results then (r.error, true) else ([], false)

  -- `Append`
  unfoldable pub append_result : Response Score → Result Score → Response Score
  append_result r result = record r { results = append r.results (result ∷ []) }

  unfoldable pub extend : Response Score → Response Score → Response Score
  extend r result = record r { results = append r.results (items result.results) }

  -- The first loop of `ExtendUnique`
  unfoldable pub mark_existing : List (Result Score) → Dict Text Bool → Dict Text Bool
  mark_existing [] existing = existing
  mark_existing (res ∷ rest) existing = mark_existing rest (insert res.document true existing)

  -- The second loop
  unfoldable pub append_missing :
      (Dict Text Bool
        → List (Result Score)
        → Option (List (Result Score))
        → Option (List (Result Score)))
  append_missing existing [] results = results
  append_missing existing (res ∷ rest) results = elim (lookup res.document existing) [
    | none ↦ append_missing existing rest (append results (res ∷ []))
    | some found ↦ append_missing existing rest results
  ]

  unfoldable pub extend_unique : Response Score → Response Score → Response Score
  unfolding mark_existing append_missing
  extend_unique r result = record r {
    results = append_missing (mark_existing (items r.results) []) (items result.results) r.results;
  }

  unfoldable pub len : Response Score → ℕ
  len r = length (items r.results)

  -- `Response.Send`: the message, or the panic where `json.Marshal` has an error.
  unfoldable pub send : (Response Score → Bool) → Response Score → Option (Response Score)
  send marshals r =
      let r' = if is_empty (items r.results) then record r { error = empty_results } else r in
      if marshals r' then some r' else none

  -- `ReceiveResponse`, given the message.
  unfoldable pub receive_response : Response Score → Response Score
  receive_response r =
      if is_nil r.results && text_eq r.error empty_results
      then record r { results = some []; error = [] }
      else r
