-- ===== src/FileReader/Tokenizer/Marks.antt =====
-- Punctuation and quoted text, which `Next` skips.
use irengine.Common.{ℕ, suc, ◌==◌, ◌≡◌, refl, ap, true, false, [], ◌∷◌, ◌++◌, All, Text, is_space}
use irengine.FileReader.Scanner.{done, plain, cons_text, scan_string, scan_token, peek}
use irengine.FileReader.Tokenizer.{CharClasses, Tokenizer, new_phrase, next_token}
use irengine.FileReader.Tokenizer.Words.{or_true, scan-char}

-- A punctuation mark with no other meaning.
pub record IsMark (U : CharClasses) (c : ℕ) : Type 0 where
  pub print : U.is_print c ≡ true
  pub punct : U.is_punct c ≡ true
  pub no_space : is_space c ≡ false
  pub no_start : ((c == b'&') ≡ false) × ((c == b'<') ≡ false) × ((c == b'"') ≡ false)

-- A character that a string literal may hold as it is.
abbrev pub IsQuotable : ℕ → Type 0
IsQuotable c = ((c == b'"') ≡ false) × ((c == 10) ≡ false) × ((c == b'\\') ≡ false)

scan_string-quotable :
    (s rest : Text)
    → All IsQuotable s
    → scan_string plain (s ++ b'"' ∷ rest) ≡ done (s ++ b'"' ∷ [], rest)
unfolding scan_string
scan_string-quotable [] rest a = refl
scan_string-quotable (c ∷ s) rest ((e, f, g), b) =
    rw (e, scan_string)
      (rw (f, scan_string) (rw g (ap (cons_text c) (scan_string-quotable s rest b))))

module _ (U : CharClasses) (random : ℕ → ℕ) where
  pub next_token-mark :
      (fuel c : ℕ) (s : Text) (tz : Tokenizer)
      → IsMark U c
      → next_token U random (suc fuel) (record tz { scanner = c ∷ s })
        ≡ next_token U random fuel (record (new_phrase random tz) { scanner = s })
  unfolding next_token peek new_phrase
  next_token-mark fuel c s tz m =
      rw (m.print, next_token)
        (rw (m.no_space, next_token)
          (rw (m.no_start.1, next_token)
            (rw (m.no_start.0, next_token)
              (rw (m.punct, next_token)
                (rw (or_true (c == b'`'), next_token) (rw (scan-char c s m.no_start.2) refl))))))

  pub next_token-quoted :
      U.is_print b'"' ≡ true
      → U.is_punct b'"' ≡ true
      → (fuel : ℕ) (s rest : Text) (tz : Tokenizer) → All IsQuotable s
      → next_token U random (suc fuel) (record tz { scanner = b'"' ∷ (s ++ b'"' ∷ rest) })
        ≡ next_token U random fuel (record (new_phrase random tz) { scanner = rest })
  unfolding next_token peek new_phrase scan_token is_space
  next_token-quoted print punct fuel s rest tz a =
      rw (print, next_token) (rw (punct, next_token) (rw (scan_string-quotable s rest a) refl))
