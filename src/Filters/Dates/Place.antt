-- ===== src/Filters/Dates/Place.antt =====
-- The date filter keeps the place of the token that it reads, also in the date that it adds.
use irengine.Common.{
  ℕ, ◌≡◌, refl, Bool, true, false, Option, none, some, All, text_key, lookup, to_lower,
  Option-cases, inl, inr,
}
use irengine.FileReader.Token.{Token}
use irengine.Filters.Place.{KeepsPlace, KeepsPlace-refl, KeepsPlace-clone, KeepsPlace-one}
use irengine.Filters.Words.{map_text}
use irengine.Filters.DateText.{Atoi, syntax_error, number, atoi, match_date}
use irengine.Filters.Dates.{
  DateFilterState, date_begin, date_month, date_day_month, DateFilter, new_date_filter, months,
  try_match_month, try_match_year, try_match_day, in_range, finish_date, try_match_date,
  after_month_try, after_date_try, apply_begin, after_year_try, after_day_try, after_last_try,
  apply_state, date_apply,
}

module _ (tok : Token) where
  abbrev Placed : Option Token → Type 0
  Placed none = Unit
  Placed (some t) = KeepsPlace tok t

  month_place : (f : DateFilter) → Placed (try_match_month f tok).1
  unfolding try_match_month
  month_place f = go (lookup (map_text to_lower tok.text) months) refl
    where
      go :
          (o : Option ℕ)
          → lookup (map_text to_lower tok.text) months ≡ o
          → Placed (try_match_month f tok).1
      go none e = rw (e, try_match_month) tt
      go (some m) e = rw (e, try_match_month) (KeepsPlace-clone tok _)

  year_place : (f : DateFilter) → Placed (try_match_year f tok).1
  unfolding try_match_year
  year_place f = go (atoi tok.text) refl
    where
      go : (a : Atoi) → atoi tok.text ≡ a → Placed (try_match_year f tok).1
      go syntax_error e = rw (e, try_match_year) tt
      go (number s n) e = rw (e, try_match_year) (KeepsPlace-refl tok)

  date_place : (now_year : ℕ) (f : DateFilter) → Placed (try_match_date now_year f tok).1
  unfolding try_match_date finish_date
  date_place now_year f = elim (Option-cases (match_date tok.text)) [
    | inl e ↦ rw (e, try_match_date) tt
    | inr ((m, d, y), e) ↦
        rw (e, try_match_date)
          (elim (Option-cases (in_range 12 (atoi m))) [
            | inl h ↦ rw (h, try_match_date) tt
            | inr (mo, h) ↦
                rw (h, try_match_date)
                  (elim (Option-cases (in_range 31 (atoi d))) [
                    | inl k ↦ rw (k, try_match_date) tt
                    | inr (da, k) ↦ rw (k, try_match_date) (KeepsPlace-clone tok _)
                  ])
          ])
  ]

  begin_place :
      (now_year : ℕ) (f : DateFilter) → All (KeepsPlace tok) (apply_begin now_year f tok).1
  unfolding apply_begin
  begin_place now_year f = after_date (try_match_date now_year f tok) (date_place now_year f)
    where
      after_month :
          (r : DateFilter × Option Token)
          → Placed r.1
          → All (KeepsPlace tok) (after_month_try r tok).1
      after_month (g, none) h = KeepsPlace-one tok
      after_month (g, some t) h = (h, tt)

      after_date :
          (r : DateFilter × Option Token)
          → Placed r.1
          → All (KeepsPlace tok) (after_date_try r tok).1
      after_date (g, none) h = after_month (try_match_month g tok) (month_place g)
      after_date (g, some t) h = (h, tt)

  state_place :
      (now_year : ℕ) (st : DateFilterState) (f : DateFilter)
      → All (KeepsPlace tok) (apply_state now_year st f tok).1
  unfolding apply_state
  state_place now_year date_begin f = begin_place now_year f
  state_place now_year date_month f = after_day (try_match_day f tok)
    where
      after_year :
          (r : DateFilter × Option Token)
          → Placed r.1
          → All (KeepsPlace tok) (after_year_try r tok).1
      after_year (g, none) h = KeepsPlace-one tok
      after_year (g, some t) h = (h, (KeepsPlace-clone tok _, tt))

      after_day : (r : DateFilter × Bool) → All (KeepsPlace tok) (after_day_try r tok).1
      after_day (g, true) = tt
      after_day (g, false) = after_year (try_match_year g tok) (year_place g)
  state_place now_year date_day_month f = after_last (try_match_year f tok)
    where
      after_last :
          (r : DateFilter × Option Token) → All (KeepsPlace tok) (after_last_try now_year r tok).1
      after_last (g, none) = (KeepsPlace-clone tok _, begin_place now_year new_date_filter)
      after_last (g, some t) = (KeepsPlace-refl tok, (KeepsPlace-clone tok _, tt))
  state_place now_year _ f = KeepsPlace-one tok

  pub date_apply_place :
      (now_year : ℕ) (f : DateFilter) → All (KeepsPlace tok) (date_apply now_year f tok).1
  unfolding date_apply
  date_apply_place now_year f = state_place now_year f.state f
