-- ===== src/Filters/Dates/Pending.antt =====
-- A date that a document ends in.
use irengine.Common.{
  ℕ, ◌≡◌, refl, ap, ◌∙◌, Bool, true, false, not, ◌&&◌, none, [], ◌∷◌, ◌++◌, append-nil,
  if◌then◌else◌,
}
use irengine.FileReader.Token.{Token, clone_with_text}
use irengine.Filters.Plumbing.{Filter, receive, run, stage}
use irengine.Filters.Plumbing.Chain.{is_null, is_symbol}
use irengine.Filters.DateText.{syntax_error, atoi}
use irengine.Filters.Dates.{
  DateFilter, date_day_month, new_date_filter, make_date_repr, try_match_year, after_last_try,
  apply_day_month, apply_state, date_apply, date_filter,
}

if_false {ℓ} : {A : Type ℓ} {b : Bool} (x y : A) → b ≡ false → (if b then x else y) ≡ y
if_false x y h = rw h refl

receive_apply :
    (f : Filter) (s : f.State) (tok : Token)
    → is_symbol tok ≡ false
    → is_null tok ≡ false
    → tok.final ≡ false
    → receive f s tok ≡ f.apply s tok
unfolding receive
receive_apply f s tok y n h =
    if_false _ _ y ∙ if_false _ _ n ∙ if_false _ _ (ap (λ b. b && not f.ignores_final) h)

receive_end :
    (f : Filter) (s : f.State) (tok : Token)
    → is_symbol tok ≡ false
    → is_null tok ≡ true
    → receive f s tok ≡ ((f.notify_doc_complete s).0, (f.notify_doc_complete s).1 ++ tok ∷ [])
unfolding receive
receive_end f s tok y n = if_false _ _ y ∙ rw n refl

no_year :
    (f : DateFilter) (tok : Token) → atoi tok.text ≡ syntax_error → try_match_year f tok ≡ (f, none)
unfolding try_match_year
no_year f tok a = rw (a, try_match_year) refl

pending_apply :
    (now_year : ℕ) (f : DateFilter) (tok : Token)
    → f.state ≡ date_day_month
    → atoi tok.text ≡ syntax_error
    → (date_apply now_year f tok).1
      ≡ clone_with_text tok (make_date_repr f.matches ∷ [])
        ∷ (date_apply now_year new_date_filter tok).1
unfolding date_apply apply_state apply_day_month after_last_try
pending_apply now_year f tok st a =
    ap (λ q. (apply_state now_year q f tok).1) st
    ∙ ap (λ r. (after_last_try now_year r tok).1) (no_year f tok a)

-- The state of the filter in the plumbing.
unfoldable pub in_state : (now_year : ℕ) → DateFilter → (stage (date_filter now_year)).State
unfolding stage date_filter
in_state now_year f = f

-- A document ends behind a month and a day, and the next one begins with a word that is no year: the end
-- passes without the date, which is sent as a token of the next document.
pub run-pending :
    (now_year : ℕ) (f : DateFilter) (end tok : Token)
    → f.state ≡ date_day_month
    → is_null end ≡ true
    → is_symbol end ≡ false
    → is_null tok ≡ false
    → is_symbol tok ≡ false
    → tok.final ≡ false
    → atoi tok.text ≡ syntax_error
    → (run (stage (date_filter now_year)) (in_state now_year f) (end ∷ tok ∷ [])).1
      ≡ end
        ∷ clone_with_text tok (make_date_repr f.matches ∷ [])
        ∷ (date_apply now_year new_date_filter tok).1
unfolding run stage date_filter in_state
run-pending now_year f end tok st n y w v fin a =
    let F = date_filter now_year in
    let first : (receive F f end).1 ++ ((receive F (receive F f end).0 tok).1 ++ [])
        ≡ end ∷ ((receive F f tok).1 ++ []) =
      ap (λ r. r.1 ++ ((receive F r.0 tok).1 ++ [])) (receive_end F f end y n) in
    let second : end ∷ ((receive F f tok).1 ++ []) ≡ end ∷ ((date_apply now_year f tok).1 ++ []) =
      ap (λ r. end ∷ (r.1 ++ [])) (receive_apply F f tok v w fin) in
    first ∙ second ∙ ap (λ l. end ∷ l) (append-nil _ ∙ pending_apply now_year f tok st a)
