-- ===== src/FileReader/Scanner.antt =====
-- Go's package text/scanner as `BadXMLTokenizer_FromReader` of scanner/filereader/tokenizer.go sets it
-- up: no white space is skipped, string literals are scanned whole, and an error panics. A scanner is
-- the text that is left; the texts have no NUL and no byte order mark.
use irengine.Common.{
  ℕ, zero, suc, ◌+◌, ◌-◌, ◌==◌, ltb, leb, if◌then◌else◌, true, false, ◌&&◌, Option, none, some, [],
  ◌∷◌, Text, has_char, codes,
}

-- What a function gives that may loop: `out_of_fuel` is not an answer of the code.
pub data Outcome {ℓ} (A : Type ℓ) : Type ℓ where
  done : A → Outcome A
  panics : Outcome A
  out_of_fuel : Outcome A

infixl 5 ◌>>=◌
abbrev pub ◌>>=◌ {ℓ κ} : {A : Type ℓ} {B : Type κ} → Outcome A → (A → Outcome B) → Outcome B
done a >>= f = f a
panics >>= f = panics
out_of_fuel >>= f = out_of_fuel

-- The kinds of tokens that `Scan` returns.
pub data Scanned : Type 0 where
  eof : Scanned
  char : ℕ → Scanned
  literal : Scanned

-- Inside a string literal: behind a backslash, or with digits of an escape to come.
pub data LiteralMode : Type 0 where
  plain : LiteralMode
  escaped : LiteralMode
  escape_digits : ℕ → ℕ → LiteralMode

abbrev pub digit_val : ℕ → ℕ
digit_val c =
    if leb b'0' c && leb c b'9'
    then c - b'0'
    else if leb b'a' c && leb c b'f'
    then c - b'a' + 10
    else if leb b'A' c && leb c b'F'
    then c - b'A' + 10
    else 16

abbrev pub after_digit : ℕ → ℕ → LiteralMode
after_digit base zero = plain
after_digit base (suc n) = escape_digits base (suc n)

-- What `scanEscape` makes of the character behind the backslash; `none` is an error.
unfoldable pub escape_mode : ℕ → Option LiteralMode
escape_mode c =
    if has_char c (codes "abfnrtv\\\"")
    then some plain
    else if leb b'0' c && leb c b'7'
    then some (escape_digits 8 2)
    else if c == b'x'
    then some (escape_digits 16 2)
    else if c == b'u'
    then some (escape_digits 16 4)
    else if c == b'U'
    then some (escape_digits 16 8)
    else none

abbrev pub cons_text : ℕ → Outcome (Text × Text) → Outcome (Text × Text)
cons_text c (done (text, rest)) = done (c ∷ text, rest)
cons_text c panics = panics
cons_text c out_of_fuel = out_of_fuel

-- `scanString` behind the opening quote: what it reads with the closing quote, and the rest.
unfoldable pub scan_string : LiteralMode → Text → Outcome (Text × Text)
unfolding escape_mode
scan_string mode [] = panics
scan_string plain (c ∷ s) = elim (c == b'"') [
  | true ↦ done (c ∷ [], s)
  | false ↦ elim (c == 10) [
    | true ↦ panics
    | false ↦ cons_text c (scan_string (if c == b'\\' then escaped else plain) s)
  ]
]
scan_string escaped (c ∷ s) = elim (escape_mode c) [
  | none ↦ panics
  | some mode ↦ cons_text c (scan_string mode s)
]
scan_string (escape_digits base n) (c ∷ s) = elim (ltb (digit_val c) base) [
  | false ↦ panics
  | true ↦ cons_text c (scan_string (after_digit base (n - 1)) s)
]

-- `Peek`
unfoldable pub peek : Text → Option ℕ
peek [] = none
peek (c ∷ s) = some c

-- `Next`
unfoldable pub next : Text → Option ℕ × Text
next [] = (none, [])
next (c ∷ s) = (some c, s)

-- `Scan`, with `TokenText` and the rest.
unfoldable pub scan_token : Text → Outcome (Scanned × Text × Text)
unfolding scan_string
scan_token [] = done (eof, [], [])
scan_token (c ∷ s) = elim (c == b'"') [
  | false ↦ done (char c, c ∷ [], s)
  | true ↦ do read ← scan_string plain s; done (literal, c ∷ read.0, read.1)
]
