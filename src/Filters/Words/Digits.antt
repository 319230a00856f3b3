-- ===== src/Filters/Words/Digits.antt =====
-- What the digits filter writes for a number.
use irengine.Common.{◌==◌, ◌≡◌, ◌⊎◌, true, not, [], ◌∷◌, ◌++◌, Text, select}
use irengine.Filters.Words.{is_number}

abbrev pub without_commas : Text → Text
without_commas = select (λ c. not (c == b','))

-- The two shapes of a number: with decimals and without.
abbrev pub IsWritten : Text → Text → Text → Type 0
IsWritten s whole decimals =
    ((s ≡ whole) × (decimals ≡ [])) ⊎ ((s ≡ whole ++ b'.' ∷ decimals) × (is_number decimals ≡ true))
