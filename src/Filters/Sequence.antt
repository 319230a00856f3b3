-- ===== src/Filters/Sequence.antt =====
-- `SingleTermFilterSequence` of indexer/filters/filter.go, and what its filters keep of a token.
pub mod Documents
use irengine.Common.{ℕ}
use irengine.Filters.Plumbing.{Stage, stage, piped}
use irengine.Filters.Words.{
  new_lower_case_filter, new_digits_filter, new_slash_filter, new_acronym_filter,
  new_filename_filter,
}
use irengine.Filters.Hyphens.{new_hyphen_filter}
use irengine.Filters.Dates.{new_date_filter, date_filter}

-- The chain that `init` builds: each filter is new, so that its input is free for `Connect`, and has one
-- output; the year is the one that `time.Now` gives the date filter.
unfoldable pub single_term_filter_sequence : ℕ → Stage
single_term_filter_sequence now_year =
    let f = piped (stage new_digits_filter) (stage (date_filter now_year)) in
    let f = piped f (stage new_hyphen_filter) in
    let f = piped f (stage new_slash_filter) in
    let f = piped f (stage new_acronym_filter) in
    let f = piped f (stage new_filename_filter) in piped f (stage new_lower_case_filter)

-- The states that the filters start in.
unfoldable pub single_term_start : (now_year : ℕ) → (single_term_filter_sequence now_year).State
unfolding single_term_filter_sequence new_lower_case_filter new_digits_filter new_slash_filter
    new_acronym_filter new_filename_filter new_hyphen_filter date_filter piped stage
single_term_start now_year = ((((((tt, new_date_filter), tt), tt), tt), tt), tt)
