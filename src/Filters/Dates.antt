-- ===== src/Filters/Dates.antt =====
-- `DateFilter` of indexer/filters/dates.go. The year that `time.Now` gives is a parameter.
pub mod Place
pub mod Laws
pub mod States
pub mod Pending
use irengine.Common.{
  ℕ, zero, suc, ◌+◌, ◌-◌, ◌/◌, ◌<◌, ◌^◌, ◌==◌, ltb, leb, if◌then◌else◌, Bool, true, false, not,
  ◌&&◌, ◌||◌, Option, none, some, List, [], ◌∷◌, ◌++◌, length, Text, codes, text_eq, Dict, text_key,
  lookup, is_ascii_digit, to_lower, format_int, parse_int,
}
use irengine.FileReader.Token.{Token, clone_with_text}
use irengine.Filters.Plumbing.{Filter}
use irengine.Filters.Words.{map_text}
use irengine.Filters.DateText.{Atoi, syntax_error, number, atoi, pad, trim_right, match_date}

-- The states that the filter takes (`DateDayWeek`, `DateTime` and `DateYear` never are).
pub data DateFilterState : Type 0 where
  date_begin date_day_week date_month date_day_month date_time date_year : DateFilterState

-- `matches`, at the three keys that are written.
pub record Matches : Type 0 where
  pub month : Option Text
  pub day : Option Text
  pub year : Option Text

pub record DateFilter : Type 0 where
  pub have_partial : Bool
  pub matches : Matches
  pub state : DateFilterState

abbrev pub no_matches : Matches
no_matches = record { month = none; day = none; year = none }

-- `NewDateFilter`; `Reset` gives the same fields.
abbrev pub new_date_filter : DateFilter
new_date_filter = record { have_partial = false; matches = no_matches; state = date_begin }

or_text : Option Text → Text → Text
or_text none t = t
or_text (some s) t = s

-- `makeDateRepr`
unfoldable pub make_date_repr : Matches → Text
unfolding or_text
make_date_repr m =
    or_text m.month (codes "00")
    ++ (b'_' ∷ (or_text m.day (codes "00") ++ (b'_' ∷ or_text m.year (codes "0000"))))

months : Dict Text ℕ
months =
    (codes "january", 1)
    ∷ (codes "jan", 1)
    ∷ (codes "february", 2)
    ∷ (codes "feb", 2)
    ∷ (codes "march", 3)
    ∷ (codes "mar", 3)
    ∷ (codes "april", 4)
    ∷ (codes "apr", 4)
    ∷ (codes "may", 5)
    ∷ (codes "june", 6)
    ∷ (codes "jun", 6)
    ∷ (codes "july", 7)
    ∷ (codes "jul", 7)
    ∷ (codes "august", 8)
    ∷ (codes "aug", 8)
    ∷ (codes "september", 9)
    ∷ (codes "sep", 9)
    ∷ (codes "october", 10)
    ∷ (codes "oct", 10)
    ∷ (codes "november", 11)
    ∷ (codes "nov", 11)
    ∷ (codes "december", 12)
    ∷ (codes "dec", 12)
    ∷ []

-- `time.Month.String`
month_name : ℕ → Text
month_name n =
    if n == 1
    then codes "January"
    else if n == 2
    then codes "February"
    else if n == 3
    then codes "March"
    else if n == 4
    then codes "April"
    else if n == 5
    then codes "May"
    else if n == 6
    then codes "June"
    else if n == 7
    then codes "July"
    else if n == 8
    then codes "August"
    else if n == 9
    then codes "September"
    else if n == 10
    then codes "October"
    else if n == 11
    then codes "November"
    else codes "December"

-- The results of the `TryMatch…` methods: the filter and, on a match, the token.
try_match_month : DateFilter → Token → DateFilter × Option Token
unfolding months month_name
try_match_month f tok = elim (lookup (map_text to_lower tok.text) months) [
  | none ↦ (f, none)
  | some match ↦ (
    record f {
      matches = record f.matches { month = some (pad 2 false match) };
      have_partial = true;
    },
    some (clone_with_text tok (month_name match ∷ [])),
  )
]

try_match_year : DateFilter → Token → DateFilter × Option Token
try_match_year f tok = elim (atoi tok.text) [
  | syntax_error ↦ (f, none)
  | number negative num ↦ (
    record f {
      matches = record f.matches { year = some (pad 4 negative num) };
      have_partial = true;
    },
    some tok,
  )
]

-- A day is matched without a token.
unfoldable pub try_match_day : DateFilter → Token → DateFilter × Bool
unfolding trim_right
try_match_day f tok = elim (atoi (trim_right tok.text)) [
  | syntax_error ↦ (f, false)
  | number negative num ↦
      if not negative && ltb 0 num && ltb num 31
      then (
        record f {
          matches = record f.matches { day = some (pad 2 false num) };
          have_partial = true;
        },
        true,
      )
      else (f, false)
]

-- The year of a date, in the century of `now_year` or the one before; `none` is the default case.
date_year_of : ℕ → ℕ → Option Text
date_year_of now_year year =
    if ltb year 100 && leb year (now_year / 100)
    then some (pad 2 false (now_year / 100) ++ pad 2 false year)
    else if ltb year 100 && ltb (now_year / 100) year
    then some (pad 2 false (now_year / 100 - 1) ++ pad 2 false year)
    else if ltb 100 year
    then some (pad 4 false year)
    else none

set_year : ℕ → Atoi → Matches → Matches
unfolding date_year_of
set_year now_year syntax_error m = m
set_year now_year (number negative year) m = elim (date_year_of now_year year) [
  | none ↦ m
  | some t ↦ record m { year = some t }
]

-- A part of a date that must lie in 1 … `hi`: `none` is the return without a match, and a part that
-- is no number changes nothing.
in_range : ℕ → Atoi → Option (Option ℕ)
in_range hi syntax_error = some none
in_range hi (number negative n) = if ltb 0 n && leb n hi then some (some n) else none

set_month : Option ℕ → Matches → Matches
set_month none m = m
set_month (some n) m = record m { month = some (pad 2 false n) }

set_day : Option ℕ → Matches → Matches
set_day none m = m
set_day (some n) m = record m { day = some (pad 2 false n) }

finish_date : ℕ → Token → Text → DateFilter → DateFilter × Option Token
unfolding set_year or_text
finish_date now_year tok year f =
    let m = set_year now_year (atoi year) f.matches in
    (
      record f { matches = m },
      some (
          clone_with_text tok (
            (or_text m.month [] ++ (b'_' ∷ (or_text m.day [] ++ (b'_' ∷ or_text m.year []))))
            ∷ [])),
    )

unfoldable pub try_match_date : ℕ → DateFilter → Token → DateFilter × Option Token
unfolding in_range set_month set_day finish_date
try_match_date now_year f tok = elim (match_date tok.text) [
  | none ↦ (f, none)
  | some (month, day, year) ↦ elim (in_range 12 (atoi month)) [
    | none ↦ (f, none)
    | some mo ↦
        let f' = record f { matches = set_month mo f.matches } in
        elim (in_range 31 (atoi day)) [
          | none ↦ (f', none)
          | some d ↦ finish_date now_year tok year (record f' { matches = set_day d f'.matches })
        ]
  ]
]

-- The case `DateBegin` of the switch.
after_month_try : DateFilter × Option Token → Token → DateFilter × List Token
after_month_try (f, some newtok) tok = (record f { state = date_month }, newtok ∷ [])
after_month_try (f, none) tok = (f, tok ∷ [])

after_date_try : DateFilter × Option Token → Token → DateFilter × List Token
unfolding after_month_try try_match_month
after_date_try (f, some newtok) tok = (new_date_filter, newtok ∷ [])
after_date_try (f, none) tok = after_month_try (try_match_month f tok) tok

apply_begin : ℕ → DateFilter → Token → DateFilter × List Token
unfolding after_date_try try_match_date
apply_begin now_year f tok = after_date_try (try_match_date now_year f tok) tok

-- The case `DateMonth`.
after_year_try : DateFilter × Option Token → Token → DateFilter × List Token
after_year_try (f, some newtok) tok =
    (new_date_filter, newtok ∷ clone_with_text tok (make_date_repr f.matches ∷ []) ∷ [])
after_year_try (f, none) tok = (new_date_filter, tok ∷ [])

after_day_try : DateFilter × Bool → Token → DateFilter × List Token
unfolding after_year_try try_match_year
after_day_try (f, true) tok = (record f { state = date_day_month }, [])
after_day_try (f, false) tok = after_year_try (try_match_year f tok) tok

apply_month : DateFilter → Token → DateFilter × List Token
unfolding after_day_try try_match_day
apply_month f tok = after_day_try (try_match_day f tok) tok

-- The case `DateDayMonth`: without a year, the date ends and the token is parsed again.
after_last_try : ℕ → DateFilter × Option Token → Token → DateFilter × List Token
unfolding apply_begin
after_last_try now_year (f, some newtok) tok =
    (new_date_filter, tok ∷ clone_with_text tok (make_date_repr f.matches ∷ []) ∷ [])
after_last_try now_year (f, none) tok =
    let date_tok = clone_with_text tok (make_date_repr f.matches ∷ []) in
    let (f', result) = apply_begin now_year new_date_filter tok in (f', date_tok ∷ result)

apply_day_month : ℕ → DateFilter → Token → DateFilter × List Token
unfolding after_last_try try_match_year
apply_day_month now_year f tok = after_last_try now_year (try_match_year f tok) tok

apply_state : ℕ → DateFilterState → DateFilter → Token → DateFilter × List Token
unfolding apply_month apply_day_month
apply_state now_year date_begin f tok = apply_begin now_year f tok
apply_state now_year date_month f tok = apply_month f tok
apply_state now_year date_day_month f tok = apply_day_month now_year f tok
apply_state now_year _ f tok = (f, tok ∷ [])

-- `DateFilter.Apply`
unfoldable pub date_apply : ℕ → DateFilter → Token → DateFilter × List Token
unfolding apply_state
date_apply now_year f tok = apply_state now_year f.state f tok

unfoldable pub date_filter : ℕ → Filter
date_filter now_year = record {
  State = DateFilter;
  id = codes "dates";
  ignores_final = false;
  apply = date_apply now_year;
  notify_doc_complete = λ f. (f, []);
}
