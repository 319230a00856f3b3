-- ===== src/Common/Decimal.antt =====
-- Decimal texts: `%d` and `strconv.ParseInt` on texts without a sign.
use Prim.Native.Nat.{ℕ, zero, suc, ◌+◌, ◌-◌, ◌*◌, ◌/◌, ◌%◌, ◌^◌, ◌≤◌, ◌<◌}
use mathlib.Core.Path.{◌≡◌, refl}
use mathlib.Core.Option.{Option, none, some}
use mathlib.Core.List.{[], ◌∷◌}
use native.Mathlib.Omega.{arith}
use irengine.Common.Tests.{ltb, if◌then◌else◌}
use irengine.Common.Lists.{length, All}
use irengine.Common.Strings.{Text, codes}
use irengine.Common.Unicode.{is_ascii_digit}

-- The digits of `n` before `out`; one more round than digits is enough fuel.
digits : ℕ → ℕ → Text → Text
digits zero n out = out
digits (suc f) n out =
    let more = digits f (n / 10) ((b'0' + n % 10) ∷ out) in
    if ltb n 10 then (b'0' + n) ∷ out else more

-- `%d` of a number that is not negative
unfoldable pub format_int : ℕ → Text
unfolding digits
format_int n = digits (suc n) n []

scan_digits : ℕ → Text → Option ℕ
scan_digits n [] = some n
scan_digits n (c ∷ s) =
    let more = scan_digits (n * 10 + (c - b'0')) s in if is_ascii_digit c then more else none

-- `strconv.ParseInt(s, 10, bits)` where `s` has no sign: `none` is a syntax or a range error.
unfoldable pub parse_int : ℕ → Text → Option ℕ
unfolding scan_digits
parse_int bits [] = none
parse_int bits (c ∷ s) = elim (scan_digits 0 (c ∷ s)) [
  | none ↦ none
  | some n ↦ if ltb n (2 ^ (bits - 1)) then some n else none
]

scan_digits-digits :
    (f n : ℕ) (out : Text) → n < f → scan_digits 0 (digits f n out) ≡ scan_digits n out
unfolding digits scan_digits
scan_digits-digits zero n out h = elim h [ ]
scan_digits-digits (suc f) n out h =
    ground (arith, scan_digits-digits f (n / 10) ((b'0' + n % 10) ∷ out))

digits_nonempty : (f n : ℕ) (out : Text) → length out < length (digits (suc f) n out)
unfolding digits
digits_nonempty zero n out = ground arith
digits_nonempty (suc f) n out = ground (arith, digits_nonempty f (n / 10) ((b'0' + n % 10) ∷ out))

abbrev pub IsDigit : ℕ → Type 0
IsDigit c = (b'0' ≤ c) × (c ≤ b'9')

digits-All : (f n : ℕ) (out : Text) → n < f → All IsDigit out → All IsDigit (digits f n out)
unfolding digits
digits-All zero n out h a = elim h [ ]
digits-All (suc f) n out h a = ground (arith, digits-All f (n / 10) ((b'0' + n % 10) ∷ out))

pub format_int-All : (n : ℕ) → All IsDigit (format_int n)
unfolding format_int
format_int-All n = digits-All (suc n) n [] (omega arith) tt

pub format_int_nonempty : (n : ℕ) → 0 < length (format_int n)
unfolding format_int
format_int_nonempty n = digits_nonempty n n []

parse_int-scan :
    (bits n : ℕ) (s : Text)
    → 0 < length s
    → scan_digits 0 s ≡ some n
    → n < 2 ^ (bits - 1)
    → parse_int bits s ≡ some n
unfolding parse_int
parse_int-scan bits n [] h e lt = absurd (omega arith)
parse_int-scan bits n (c ∷ s) h e lt = ground arith

-- What `%d` prints is parsed back, if it fits the width.
pub parse_int-format_int :
    (bits n : ℕ) → n < 2 ^ (bits - 1) → parse_int bits (format_int n) ≡ some n
unfolding format_int scan_digits
parse_int-format_int bits n h =
    parse_int-scan bits n _ (format_int_nonempty n) (scan_digits-digits (suc n) n [] (omega arith))
      h

digits-length :
    (k f n : ℕ) (out : Text) → n < 10 ^ suc k → length (digits f n out) ≤ suc k + length out
unfolding digits
digits-length k zero n out h = omega arith
digits-length zero (suc f) n out h = ground arith
digits-length (suc k) (suc f) n out h =
    let ih = digits-length k f (n / 10) ((b'0' + n % 10) ∷ out) (omega arith) in ground arith

-- A number below a power of ten has no more digits than its exponent.
pub format_int-length : (k n : ℕ) → n < 10 ^ suc k → length (format_int n) ≤ suc k
unfolding format_int
format_int-length k n h = omega (arith, digits-length k (suc n) n [] h)

formatted : format_int 90210 ≡ codes "90210"
unfolding format_int
formatted = refl

out_of_range : parse_int 32 (codes "2147483648") ≡ none
unfolding parse_int
out_of_range = refl
