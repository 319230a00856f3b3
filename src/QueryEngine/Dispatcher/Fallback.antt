-- ===== src/QueryEngine/Dispatcher/Fallback.antt =====
-- Which index answers a query.
use irengine.Common.{
  if◌then◌else◌, ◌&&◌, text_eq, Bool-cases, trim_space, ◌≡◌, refl, ap, ◌∙◌, Bool, true, false, none,
  some, List, [], ◌∷◌, ◌++◌, All, Text, Dict, text_key, lookup, Option-cases, inl, inr,
}
use irengine.QueryEngine.Engine.{Query}
use irengine.QueryEngine.Response.{Response, empty_results, is_nil, is_error, receive_response}
use irengine.QueryEngine.Dispatcher.{forced, reply, ask}

module _ {Score Thresh : Type 0} (engine_map : Dict Text (Query Thresh → Response Score)) where
  -- The query as it was, or with the force of the last index.
  abbrev pub last_forced : List Text → Query Thresh → Query Thresh
  last_forced [] query = record query { force = true }
  last_forced (index ∷ after) query = query

  -- The message of an index, with its name: an empty list of results where the marker of one came.
  abbrev pub arrived : (Query Thresh → Response Score) → Text → Query Thresh → Response Score
  arrived deployed index query =
      let r = deployed query in
      if is_nil r.results && text_eq r.error empty_results
      then record { results = some []; error = []; source = index }
      else record { results = r.results; error = r.error; source = index }

  -- Whether an index does not answer: it is not loaded, or its reply is an error.
  abbrev pub fails : Query Thresh → Text → Bool
  fails query index = elim (lookup (trim_space index) engine_map) [
    | none ↦ true
    | some deployed ↦ (is_error (arrived deployed index query)).1
  ]

  forced-last :
      (after : List Text) (query : Query Thresh)
      → forced engine_map after query ≡ last_forced after query
  forced-last [] query = refl
  forced-last (index ∷ after) query = refl

  reply-arrived :
      (deployed : Query Thresh → Response Score) (index : Text) (query : Query Thresh)
      → reply engine_map deployed index query ≡ arrived deployed index query
  unfolding receive_response
  reply-arrived deployed index query =
      elim (Bool-cases
        (is_nil (deployed query).results && text_eq (deployed query).error empty_results)) [
          | inl marked ↦ rw marked refl
          | inr plain ↦ rw plain refl
        ]

  not_last :
      (before : List Text) (index : Text) (after : List Text) (query : Query Thresh)
      → forced engine_map (before ++ index ∷ after) query ≡ query
  not_last [] index after query = refl
  not_last (b ∷ before) index after query = refl

  ask_first-reply :
      (before : List Text) (index : Text) (after : List Text) (query : Query Thresh)
      (response : Response Score) (deployed : Query Thresh → Response Score)
      → All (λ i. fails query i ≡ true) before
      → lookup (trim_space index) engine_map ≡ some deployed
      → (is_error (reply engine_map deployed index (forced engine_map after query))).1 ≡ false
      → ask engine_map (before ++ index ∷ after) query response
        ≡ reply engine_map deployed index (forced engine_map after query)
  unfolding ask
  ask_first-reply [] index after query response deployed f l ok = rw (l, ask, ok) refl
  ask_first-reply (b ∷ before) index after query response deployed (silent, f) l ok =
      elim (Option-cases (lookup (trim_space b) engine_map)) [
        | inl e ↦ rw (e, ask) (ask_first-reply before index after query _ deployed f l ok)
        | inr (d, e) ↦
            let rest = before ++ index ∷ after in
            let same = not_last before index after query in
            rw
              (
                e,
                ask,
                (ap (λ q. (is_error (reply engine_map d b q)).1) same
                    ∙ ap (λ r. (is_error r).1) (reply-arrived d b query)
                    ∙ rw (e, fails) at silent),
              )
              (ap (λ q. ask engine_map rest q (reply engine_map d b q)) same
                ∙ ask_first-reply before index after query _ deployed f l ok)
      ]

  -- The dispatcher answers with the reply of the first preferred index that is loaded and whose reply
  -- is no error, and names it; that index is forced to answer if it is the last one, and the others
  -- are not.
  pub ask_first :
      (before : List Text) (index : Text) (after : List Text) (query : Query Thresh)
      (response : Response Score) (deployed : Query Thresh → Response Score)
      → All (λ i. fails query i ≡ true) before
      → lookup (trim_space index) engine_map ≡ some deployed
      → (is_error (arrived deployed index (last_forced after query))).1 ≡ false
      → ask engine_map (before ++ index ∷ after) query response
        ≡ arrived deployed index (last_forced after query)
  ask_first before index after query response deployed f l ok =
      let same : reply engine_map deployed index (forced engine_map after query)
          ≡ arrived deployed index (last_forced after query) =
        reply-arrived deployed index (forced engine_map after query)
        ∙ ap (arrived deployed index) (forced-last after query) in
      ask_first-reply before index after query response deployed f l
        (ap (λ r. (is_error r).1) same ∙ ok)
      ∙ same
