-- ===== src/Filters/DateText.antt =====
-- The texts that indexer/filters/dates.go reads and writes: `strconv.Atoi`, `%0wd`, `strings.TrimRight`
-- and the matches of `DateRegex`.
pub mod Numbers
use irengine.Common.{
  ℕ, zero, suc, ◌-◌, ◌==◌, ltb, leb, if◌then◌else◌, Bool, true, false, ◌&&◌, ◌||◌, Option, none,
  some, [], ◌∷◌, ◌++◌, length, Text, codes, is_ascii_digit, format_int, parse_int,
}
use irengine.Filters.Words.{member_char}

-- An integer that `Atoi` returns: its sign and its absolute value.
pub data Atoi : Type 0 where
  syntax_error : Atoi
  number : Bool → ℕ → Atoi

atoi_digits : Bool → Text → Atoi
atoi_digits negative s = elim (parse_int 64 s) [
  | none ↦ syntax_error
  | some n ↦ number (negative && ltb 0 n) n
]

-- `strconv.Atoi`. (The least integer, which no token of a document is, reads as an error.)
unfoldable pub atoi : Text → Atoi
unfolding atoi_digits
atoi [] = syntax_error
atoi (c ∷ s) =
    if c == b'-'
    then atoi_digits true s
    else if c == b'+'
    then atoi_digits false s
    else atoi_digits false (c ∷ s)

zeros : ℕ → Text
zeros zero = []
zeros (suc n) = b'0' ∷ zeros n

-- `%0wd`: the sign counts for the width.
unfoldable pub pad : ℕ → Bool → ℕ → Text
unfolding zeros
pad width true n = b'-' ∷ (zeros (width - 1 - length (format_int n)) ++ format_int n)
pad width false n = zeros (width - length (format_int n)) ++ format_int n

-- `strings.TrimRight(s, "thstrd")`
unfoldable pub trim_right : Text → Text
trim_right [] = []
trim_right (c ∷ s) = elim (trim_right s) [
  | [] ↦ if member_char c (codes "thstrd") then [] else c ∷ []
  | d ∷ r ↦ c ∷ d ∷ r
]

is_separator : ℕ → Bool
is_separator c = c == b'-' || c == b'/'

digit_between : ℕ → ℕ → ℕ → Bool
digit_between lo hi c = leb lo c && leb c hi

-- `([\d]{2}|[\d]{4})$`
year_part : Text → Bool
year_part (a ∷ b ∷ []) = is_ascii_digit a && is_ascii_digit b
year_part (a ∷ b ∷ c ∷ d ∷ []) =
    is_ascii_digit a && is_ascii_digit b && is_ascii_digit c && is_ascii_digit d
year_part _ = false

-- `([0-9]|[0-3][0-9]?)[-\/]` and the year: a day of one digit is tried first.
day_part : Text → Option (Text × Text)
unfolding digit_between year_part is_separator
day_part (a ∷ b ∷ c ∷ s) =
    if is_ascii_digit a && is_separator b && year_part (c ∷ s)
    then some (a ∷ [], c ∷ s)
    else if digit_between b'0' b'3' a && is_ascii_digit b && is_separator c && year_part s
    then some (a ∷ b ∷ [], s)
    else none
day_part _ = none

is_month : ℕ → ℕ → Bool
unfolding digit_between
is_month a b = a == b'1' && digit_between b'0' b'2' b || a == b'0' && digit_between b'1' b'9' b

with_month : Text → Option (Text × Text) → Option (Text × Text × Text)
with_month month none = none
with_month month (some (day, year)) = some (month, day, year)

-- The first two alternatives of the month exclude each other, since a separator follows.
match_date_at : Text → Option (Text × Text × Text)
unfolding is_separator is_month digit_between with_month day_part
match_date_at (a ∷ b ∷ c ∷ s) =
    if is_month a b && is_separator c
    then with_month (a ∷ b ∷ []) (day_part s)
    else if digit_between b'1' b'9' a && is_separator b
    then with_month (a ∷ []) (day_part (c ∷ s))
    else none
match_date_at _ = none

-- `DateRegex.FindStringSubmatch`: the leftmost match.
unfoldable pub match_date : Text → Option (Text × Text × Text)
unfolding match_date_at
match_date [] = none
match_date (c ∷ s) =
    let rest = match_date s in elim (match_date_at (c ∷ s)) [ none ↦ rest | some m ↦ some m ]
