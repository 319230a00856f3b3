-- ===== src/Filters/DateText/Numbers.antt =====
-- Numerals with the letters of an ordinal behind them.
use irengine.Common.{
  ℕ, ◌<◌, ◌^◌, ◌≡◌, refl, ◌∙◌, true, false, [], ◌∷◌, ◌++◌, All, arith, Text, codes, IsDigit,
  format_int, format_int-All, format_int_nonempty, parse_int-format_int, length,
}
use irengine.Filters.Words.{member_char}
use irengine.Filters.DateText.{number, atoi_digits, atoi, trim_right}

-- A letter of "thstrd"
abbrev pub IsOrdinalLetter : ℕ → Type 0
IsOrdinalLetter c = member_char c (codes "thstrd") ≡ true

trim_right-letters : (s : Text) → All IsOrdinalLetter s → trim_right s ≡ []
unfolding trim_right
trim_right-letters [] h = refl
trim_right-letters (c ∷ s) (p, h) = rw (trim_right-letters s h) (rw p refl)

digit-member_char : (c : ℕ) → IsDigit c → member_char c (codes "thstrd") ≡ false
digit-member_char c d = ground arith

pub trim_right-digits :
    (digits letters : Text)
    → All IsDigit digits
    → All IsOrdinalLetter letters
    → trim_right (digits ++ letters) ≡ digits
unfolding trim_right
trim_right-digits [] letters d h = trim_right-letters letters h
trim_right-digits (c ∷ []) letters (p, d) h =
    rw (trim_right-letters letters h) (rw (digit-member_char c p) refl)
trim_right-digits (c ∷ b ∷ digits) letters (p, d) h =
    rw (trim_right-digits (b ∷ digits) letters d h) refl

atoi-digit : (c : ℕ) (s : Text) → IsDigit c → atoi (c ∷ s) ≡ atoi_digits false (c ∷ s)
unfolding atoi
atoi-digit c s d = ground arith

atoi-All : (s : Text) → 0 < length s → All IsDigit s → atoi s ≡ atoi_digits false s
atoi-All [] l h = absurd (omega arith)
atoi-All (c ∷ s) l (d, h) = atoi-digit c s d

pub atoi-format_int : (n : ℕ) → n < 2 ^ 63 → atoi (format_int n) ≡ number false n
unfolding atoi_digits
atoi-format_int n h =
    atoi-All (format_int n) (format_int_nonempty n) (format_int-All n)
    ∙ rw (parse_int-format_int 64 n h, atoi_digits) refl
