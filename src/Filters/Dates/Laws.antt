-- ===== src/Filters/Dates/Laws.antt =====
-- What the date filter takes for a day.
use irengine.Common.{
  ◌^◌, ◌++◌, All, Text, format_int, format_int-All, ap, ℕ, ◌<◌, ◌≡◌, ◌↔◌, refl, sym, ◌∙◌, Bool,
  true, false, not, ◌&&◌, ltb, if◌then◌else◌, subst, arith, text_key,
}
use irengine.FileReader.Token.{Token}
use irengine.Filters.DateText.{Atoi, syntax_error, number, atoi, trim_right}
use irengine.Filters.DateText.Numbers.{IsOrdinalLetter, trim_right-digits, atoi-format_int}
use irengine.Filters.Dates.{DateFilter, try_match_day}

tested :
    {A : Type 0} (b : Bool) (x y : A) → (if◌then◌else◌ {A = A × Bool} b (x, true) (y, false)).1 ≡ b
tested true x y = refl
tested false x y = refl

day_test : (m : ℕ) → ((not false && ltb 0 m && ltb m 31) ≡ true) → (0 < m) × (m < 31)
day_test m h = ground arith

in_month : (m : ℕ) → 0 < m → m < 31 → (not false && ltb 0 m && ltb m 31) ≡ true
in_month m p q = ground arith

try_match_day-number :
    (f : DateFilter) (tok : Token)
    → ((try_match_day f tok).1 ≡ true)
      ↔ ((n : ℕ) × (atoi (trim_right tok.text) ≡ number false n) × (0 < n) × (n < 31))
unfolding try_match_day
try_match_day-number f tok = go (atoi (trim_right tok.text)) refl
  where
    go :
        (a : Atoi)
        → atoi (trim_right tok.text) ≡ a
        → ((try_match_day f tok).1 ≡ true) ↔ ((n : ℕ) × (a ≡ number false n) × (0 < n) × (n < 31))
    go syntax_error e =
        (λ h. absurd (cc (rw (e, try_match_day) at h)), λ (n, p, q, r). absurd (cc p))
    go (number true m) e =
        (λ h. absurd (cc (rw (e, try_match_day) at h)), λ (n, p, q, r). absurd (cc p))
    go (number false m) e = (
      λ h.
          let both = day_test m (sym (tested _ _ f) ∙ rw (e, try_match_day) at h) in
          (m, refl, both.0, both.1),
      λ (n, p, q, r).
          rw (e, try_match_day)
            (tested _ _ f
              ∙ in_month m (subst (λ k. 0 < k) (sym (cc p)) q)
                  (subst (λ k. k < 31) (sym (cc p)) r)),
    )

-- A numeral with letters of "thstrd" behind it, or none, is taken for a day exactly if the number is from
-- 1 to 30. The number is of 64 bits.
pub try_match_day_lem :
    (f : DateFilter) (tok : Token) (n : ℕ) (letters : Text)
    → n < 2 ^ 63
    → All IsOrdinalLetter letters
    → tok.text ≡ format_int n ++ letters
    → ((try_match_day f tok).1 ≡ true) ↔ ((0 < n) × (n < 31))
try_match_day_lem f tok n letters wide ordinal text =
    let read : atoi (trim_right tok.text) ≡ number false n =
      ap (λ s. atoi (trim_right s)) text
      ∙ ap atoi (trim_right-digits (format_int n) letters (format_int-All n) ordinal)
      ∙ atoi-format_int n wide in
    (
      λ h. day_of n read ((try_match_day-number f tok).0 h),
      λ (p, q). (try_match_day-number f tok).1 (n, read, p, q),
    )
  where
    day_of :
        (n : ℕ)
        → atoi (trim_right tok.text) ≡ number false n
        → ((m : ℕ) × (atoi (trim_right tok.text) ≡ number false m) × (0 < m) × (m < 31))
        → (0 < n) × (n < 31)
    day_of n e (m, e', p, q) = let same : m ≡ n = cc in subst (λ k. (0 < k) × (k < 31)) same (p, q)
