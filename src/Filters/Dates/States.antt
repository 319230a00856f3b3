-- ===== src/Filters/Dates/States.antt =====
-- The states of the date filter: what it has matched in each of them.
use irengine.Common.{
  ℕ, ◌≡◌, refl, ◌∙◌, Bool, true, false, Option, none, some, Text, text_key, lookup, to_lower,
  Option-cases, inl, inr, Bool-cases, not, ◌&&◌, ltb,
}
use irengine.FileReader.Token.{Token}
use irengine.Filters.Words.{map_text}
use irengine.Filters.DateText.{Atoi, syntax_error, number, atoi, trim_right, match_date}
use irengine.Filters.Dates.{
  DateFilterState, date_begin, date_day_week, date_month, date_day_month, date_time, date_year,
  DateFilter, Matches, new_date_filter, months, try_match_month, try_match_year, try_match_day,
  in_range, set_month, finish_date, try_match_date, after_month_try, after_date_try, apply_begin,
  after_year_try, after_day_try, apply_month, after_last_try, apply_day_month, apply_state,
  date_apply,
}

abbrev Has : Option Text → Type 0
Has o = (t : Text) × (o ≡ some t)

-- The parts of a date that are there in each state; the states that the code names and never takes
-- are not reached.
abbrev pub Matched : DateFilterState → Matches → Type 0
Matched date_begin m = (m.day ≡ none) × (m.year ≡ none)
Matched date_month m = Has m.month × (m.day ≡ none) × (m.year ≡ none)
Matched date_day_month m = Has m.month × Has m.day × (m.year ≡ none)
Matched _ m = ⊥

abbrev pub IsReady : DateFilter → Type 0
IsReady f = Matched f.state f.matches

module _ (tok : Token) where
  -- What `try_match_month` leaves, with a token and without.
  abbrev MonthTried : DateFilter × Option Token → Type 0
  MonthTried (f, none) = Matched date_begin f.matches
  MonthTried (f, some t) = Matched date_month f.matches

  month_tried : (f : DateFilter) → Matched date_begin f.matches → MonthTried (try_match_month f tok)
  unfolding try_match_month
  month_tried f h = elim (Option-cases (lookup (map_text to_lower tok.text) months)) [
    | inl e ↦ rw (e, try_match_month) h
    | inr (m, e) ↦ rw (e, try_match_month) ((_, refl), h.0, h.1)
  ]

  month-IsReady :
      (r : DateFilter × Option Token)
      → (r.0.state ≡ date_begin)
      → MonthTried r
      → IsReady (after_month_try r tok).0
  unfolding after_month_try
  month-IsReady (f, none) e h = rw e h
  month-IsReady (f, some t) e h = h

  abbrev KeepsBegin : DateFilter × Option Token → Type 0
  KeepsBegin (f, o) = (f.state ≡ date_begin) × (o ≡ none → Matched date_begin f.matches)

  month_state : (f : DateFilter) → (try_match_month f tok).0.state ≡ f.state
  unfolding try_match_month
  month_state f = elim (Option-cases (lookup (map_text to_lower tok.text) months)) [
    | inl e ↦ rw (e, try_match_month) refl
    | inr (m, e) ↦ rw (e, try_match_month) refl
  ]

  date_tried :
      (now_year : ℕ) (f : DateFilter)
      → f.state ≡ date_begin
      → Matched date_begin f.matches
      → KeepsBegin (try_match_date now_year f tok)
  unfolding try_match_date finish_date set_month
  date_tried now_year f b h = elim (Option-cases (match_date tok.text)) [
    | inl e ↦ rw (e, try_match_date) (b, λ _. h)
    | inr ((m, d, y), e) ↦
        rw (e, try_match_date)
          (elim (Option-cases (in_range 12 (atoi m))) [
            | inl i ↦ rw (i, try_match_date) (b, λ _. h)
            | inr (mo, i) ↦
                rw (i, try_match_date)
                  (elim (Option-cases (in_range 31 (atoi d))) [
                    | inl k ↦ rw (k, try_match_date) (b, λ _. month_set mo f.matches h)
                    | inr (da, k) ↦ rw (k, try_match_date) (b, λ x. absurd (cc x))
                  ])
          ])
  ]
    where
      month_set :
          (mo : Option ℕ) (m : Matches) → Matched date_begin m → Matched date_begin (set_month mo m)
      month_set none m h = h
      month_set (some n) m h = h

  begin-IsReady :
      (now_year : ℕ) (f : DateFilter)
      → f.state ≡ date_begin
      → Matched date_begin f.matches
      → IsReady (apply_begin now_year f tok).0
  unfolding apply_begin after_date_try
  begin-IsReady now_year f b h = after (try_match_date now_year f tok) (date_tried now_year f b h)
    where
      after : (r : DateFilter × Option Token) → KeepsBegin r → IsReady (after_date_try r tok).0
      after (g, some t) (k, m) = (refl, refl)
      after (g, none) (k, m) =
          month-IsReady (try_match_month g tok) (month_state g ∙ k) (month_tried g (m refl))

  abbrev DayTried : DateFilter × Bool → Type 0
  DayTried (f, false) = Unit
  DayTried (f, true) = Matched date_day_month f.matches

  day_tried : (f : DateFilter) → Matched date_month f.matches → DayTried (try_match_day f tok)
  unfolding try_match_day
  day_tried f h = go (atoi (trim_right tok.text)) refl
    where
      go : (a : Atoi) → atoi (trim_right tok.text) ≡ a → DayTried (try_match_day f tok)
      go syntax_error e = rw (e, try_match_day) tt
      go (number negative n) e =
          rw (e, try_match_day)
            (elim (Bool-cases (not negative && ltb 0 n && ltb n 31)) [
              | inl good ↦ rw good (h.0, (_, refl), h.2)
              | inr bad ↦ rw bad tt
            ])

  day-IsReady :
      (f : DateFilter)
      → f.state ≡ date_month
      → Matched date_month f.matches
      → IsReady (apply_month f tok).0
  unfolding apply_month
  day-IsReady f b h = after_day (try_match_day f tok) (day_tried f h)
    where
      after_year : (r : DateFilter × Option Token) → IsReady (after_year_try r tok).0
      after_year (g, none) = (refl, refl)
      after_year (g, some t) = (refl, refl)

      after_day : (r : DateFilter × Bool) → DayTried r → IsReady (after_day_try r tok).0
      after_day (g, true) k = k
      after_day (g, false) k = after_year (try_match_year g tok)

  last-IsReady :
      (now_year : ℕ) (r : DateFilter × Option Token) → IsReady (after_last_try now_year r tok).0
  unfolding after_last_try
  last-IsReady now_year (g, some t) = (refl, refl)
  last-IsReady now_year (g, none) = begin-IsReady now_year new_date_filter refl (refl, refl)

  state-IsReady :
      (now_year : ℕ) (st : DateFilterState) (f : DateFilter)
      → f.state ≡ st
      → Matched st f.matches
      → IsReady (apply_state now_year st f tok).0
  unfolding apply_state apply_day_month
  state-IsReady now_year date_begin f e h = begin-IsReady now_year f e h
  state-IsReady now_year date_month f e h = day-IsReady f e h
  state-IsReady now_year date_day_month f e h = last-IsReady now_year (try_match_year f tok)
  state-IsReady now_year date_day_week f e h = absurd h
  state-IsReady now_year date_time f e h = absurd h
  state-IsReady now_year date_year f e h = absurd h

  -- From a state whose parts of a date are there, each token leads to such a state: a month in the
  -- state of a month, a month and a day in the state of both, no day or year where a date begins, and no
  -- year in any of them. The other states of the code are not reached.
  pub date_apply-IsReady :
      (now_year : ℕ) (f : DateFilter) → IsReady f → IsReady (date_apply now_year f tok).0
  unfolding date_apply
  date_apply-IsReady now_year f h = state-IsReady now_year f.state f refl h
