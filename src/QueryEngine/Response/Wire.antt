-- ===== src/QueryEngine/Response/Wire.antt =====
-- What arrives of a response that is sent.
use irengine.Common.{
  none-some, some-injective, ◌≡◌, refl, subst, if◌then◌else◌, Bool, false, Option, none, some, List,
  [], ◌∷◌, Text, Bool-cases, inl, inr,
}
use irengine.QueryEngine.Response.{
  Result, Response, empty_results, is_empty, items, is_error, send, receive_response,
}

module _ {Score : Type 0} where
  abbrev marked : Response Score → Response Score
  marked r = if is_empty (items r.results) then record r { error = empty_results } else r

  abbrev Arrives : Option (List (Result Score)) → Response Score → Type 0
  Arrives results m =
      (is_error (receive_response m) ≡ ([], false))
      × (items (receive_response m).results ≡ items results)

  marked-Arrives :
      (results : Option (List (Result Score))) (error source : Text)
      → Arrives results (marked (record { results = results; error = error; source = source }))
  unfolding receive_response is_error
  marked-Arrives none error source = (refl, refl)
  marked-Arrives (some []) error source = (refl, refl)
  marked-Arrives (some (x ∷ xs)) error source = (refl, refl)

  sent :
      (marshals : Response Score → Bool) (r m : Response Score)
      → send marshals r ≡ some m
      → marked r ≡ m
  unfolding send
  sent marshals r m h = elim (Bool-cases (marshals (marked r))) [
    | inl fits ↦ some-injective (rw fits at h)
    | inr fails ↦ absurd (none-some (rw fails at h))
  ]

  -- No response that was sent is an error where it arrives, and no result of it is lost: an error and
  -- its message end in `Response.Send`.
  pub is_error-receive_response :
      (marshals : Response Score → Bool) (r m : Response Score)
      → send marshals r ≡ some m
      → (is_error (receive_response m) ≡ ([], false))
        × (items (receive_response m).results ≡ items r.results)
  is_error-receive_response marshals r m h =
      subst (Arrives r.results) (sent marshals r m h) (marked-Arrives r.results r.error r.source)
