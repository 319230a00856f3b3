-- ===== src/FileReader/Tokenizer/Tags.antt =====
-- Tags, as `parseXML` reads them.
use irengine.Common.{
  ℕ, zero, suc, ◌<◌, ◌==◌, ◌≡◌, refl, sym, ap, ◌∙◌, true, false, some, [], ◌∷◌, ◌++◌, append_assoc,
  append-nil, arith, All, Text, is_space, length,
}
use irengine.FileReader.Token.{Token, TokenType, new_token, xml_start_token, xml_end_token}
use irengine.FileReader.Scanner.{done, ◌>>=◌, scan_token, peek, next}
use irengine.FileReader.Tokenizer.{
  CharClasses, Tokenizer, new_phrase, xml_loop, parse_tag, parse_xml, next_token,
}
use irengine.FileReader.Tokenizer.Words.{scan-char}

-- A character of a tag's name.
abbrev pub IsTagChar : ℕ → Type 0
IsTagChar c = ((c == b'>') ≡ false) × (is_space c ≡ false) × ((c == b'"') ≡ false)

-- The name of a start tag, which is no comment and no end tag.
abbrev pub IsTagName : Text → Type 0
IsTagName [] = ⊥
IsTagName (c ∷ s) = ((c == b'/') ≡ false) × ((c == b'!') ≡ false) × IsTagChar c × All IsTagChar s

pub xml_loop-char :
    (fuel : ℕ) (type : TokenType) (entity : Text) (c : ℕ) (s : Text)
    → IsTagChar c
    → xml_loop (suc fuel) type entity (c ∷ s) ≡ xml_loop fuel type (entity ++ c ∷ []) s
unfolding xml_loop
xml_loop-char fuel type entity c s (e, f, g) =
    rw (scan-char c s g, xml_loop) (rw (e, xml_loop, ◌>>=◌) (rw (f, xml_loop, ◌>>=◌) refl))

xml_loop-name :
    (fuel : ℕ) (type : TokenType) (entity s rest : Text)
    → length s < fuel
    → All IsTagChar s
    → xml_loop fuel type entity (s ++ b'>' ∷ rest)
      ≡ done (some (new_token (entity ++ s) type), rest)
unfolding xml_loop scan_token
xml_loop-name zero type entity s rest h a = absurd (omega arith)
xml_loop-name (suc fuel) type entity [] rest h a =
    ap (λ e. done (some (new_token e type), rest)) (sym (append-nil entity))
xml_loop-name (suc fuel) type entity (c ∷ s) rest h (a, b) =
    xml_loop-char fuel type entity c (s ++ b'>' ∷ rest) a
    ∙ xml_loop-name fuel type (entity ++ c ∷ []) s rest (omega (arith, h)) b
    ∙ ap (λ e. done (some (new_token e type), rest)) (append_assoc entity (c ∷ []) s)

pub parse_xml-start :
    (fuel c : ℕ) (s : Text)
    → (c == b'/') ≡ false
    → (c == b'!') ≡ false
    → parse_xml fuel (b'<' ∷ c ∷ s) ≡ xml_loop fuel xml_start_token [] (c ∷ s)
unfolding parse_xml parse_tag scan_token
parse_xml-start fuel c s e f = rw (e, parse_tag) (rw (f, parse_tag) refl)

module _ (U : CharClasses) (random : ℕ → ℕ) (print : U.is_print b'<' ≡ true) where
  next_token-tag :
      (fuel : ℕ) (s rest : Text) (tz : Tokenizer) (token : Token)
      → parse_xml fuel (b'<' ∷ s) ≡ done (some token, rest)
      → next_token U random (suc fuel) (record tz { scanner = b'<' ∷ s })
        ≡ done (some token, record (new_phrase random tz) { scanner = rest })
  unfolding next_token peek new_phrase is_space
  next_token-tag fuel s rest tz token e = rw (print, next_token) (rw e refl)

  pub next_token-start_tag :
      (fuel : ℕ) (s rest : Text) (tz : Tokenizer)
      → length s < fuel
      → IsTagName s
      → next_token U random (suc fuel) (record tz { scanner = b'<' ∷ (s ++ b'>' ∷ rest) })
        ≡ done
            (some (new_token s xml_start_token), record (new_phrase random tz) { scanner = rest })
  next_token-start_tag fuel [] rest tz h a = absurd a
  next_token-start_tag fuel (c ∷ s) rest tz h (e, f, a, b) =
      next_token-tag fuel (c ∷ (s ++ b'>' ∷ rest)) rest tz (new_token (c ∷ s) xml_start_token) (
        parse_xml-start fuel c (s ++ b'>' ∷ rest) e f
        ∙ xml_loop-name fuel xml_start_token [] (c ∷ s) rest h (a, b))

  pub next_token-end_tag :
      (fuel : ℕ) (s rest : Text) (tz : Tokenizer)
      → length s < fuel
      → All IsTagChar s
      → next_token U random (suc fuel) (record tz { scanner = b'<' ∷ b'/' ∷ (s ++ b'>' ∷ rest) })
        ≡ done (some (new_token s xml_end_token), record (new_phrase random tz) { scanner = rest })
  unfolding parse_xml parse_tag scan_token next
  next_token-end_tag fuel s rest tz h a =
      next_token-tag fuel (b'/' ∷ (s ++ b'>' ∷ rest)) rest tz (new_token s xml_end_token)
        (xml_loop-name fuel xml_end_token [] s rest h a)
