-- ===== src/FileReader/Tokenizer/Endless.antt =====
-- Entities, tags and comments that the end of the text cuts off.
use irengine.Common.{
  ℕ, zero, suc, ◌==◌, ◌≡◌, refl, ap, ◌∙◌, true, false, none, [], ◌∷◌, ◌++◌, All, Text, is_space,
}
use irengine.FileReader.Token.{TokenType, xml_start_token}
use irengine.FileReader.Scanner.{done, out_of_fuel, ◌>>=◌, scan_token, peek, next}
use irengine.FileReader.Tokenizer.{
  CharClasses, Tokenizer, html_loop, parse_html_entity, skip_comment, xml_loop, parse_tag,
  parse_xml, next_token, tokens,
}
use irengine.FileReader.Tokenizer.Words.{scan-char}
use irengine.FileReader.Tokenizer.Tags.{IsTagChar, IsTagName, xml_loop-char, parse_xml-start}

-- A character that leaves an entity open.
abbrev pub IsEntityChar : ℕ → Type 0
IsEntityChar c = ((c == b';') ≡ false) × (is_space c ≡ false) × ((c == b'"') ≡ false)

abbrev pub IsCommentChar : ℕ → Type 0
IsCommentChar c = (c == b'>') ≡ false

html_loop-open :
    (fuel : ℕ) (entity s : Text) → All IsEntityChar s → html_loop fuel entity s ≡ out_of_fuel
unfolding html_loop scan_token
html_loop-open zero entity s a = refl
html_loop-open (suc fuel) entity [] a = html_loop-open fuel (entity ++ []) [] tt
html_loop-open (suc fuel) entity (c ∷ s) ((e, f, g), b) =
    rw (scan-char c s g, html_loop)
      (rw (f, html_loop, ◌>>=◌)
        (rw (e, html_loop, ◌>>=◌) (html_loop-open fuel (entity ++ c ∷ []) s b)))

skip_comment-open : (fuel : ℕ) (s : Text) → All IsCommentChar s → skip_comment fuel s ≡ out_of_fuel
unfolding skip_comment next
skip_comment-open zero s a = refl
skip_comment-open (suc fuel) [] a = skip_comment-open fuel [] tt
skip_comment-open (suc fuel) (c ∷ s) (e, b) = rw (e, skip_comment) (skip_comment-open fuel s b)

xml_loop-open :
    (fuel : ℕ) (type : TokenType) (entity s : Text)
    → All IsTagChar s
    → xml_loop fuel type entity s ≡ out_of_fuel
unfolding xml_loop scan_token
xml_loop-open zero type entity s a = refl
xml_loop-open (suc fuel) type entity [] a = xml_loop-open fuel type (entity ++ []) [] tt
xml_loop-open (suc fuel) type entity (c ∷ s) (a, b) =
    xml_loop-char fuel type entity c s a ∙ xml_loop-open fuel type (entity ++ c ∷ []) s b

module _ (U : CharClasses) (random : ℕ → ℕ) where
  next_token-open_entity :
      U.is_print b'&' ≡ true
      → (fuel : ℕ) (s : Text) (tz : Tokenizer) → All IsEntityChar s
      → next_token U random fuel (record tz { scanner = b'&' ∷ s }) ≡ out_of_fuel
  unfolding next_token peek is_space parse_html_entity
  next_token-open_entity print zero s tz a = refl
  next_token-open_entity print (suc fuel) s tz a =
      rw (print, next_token) (rw (html_loop-open fuel [] (b'&' ∷ s) ((refl, refl, refl), a)) refl)

  next_token-open_tag :
      U.is_print b'<' ≡ true
      → (fuel : ℕ) (s : Text) (tz : Tokenizer) → parse_xml fuel (b'<' ∷ s) ≡ out_of_fuel
      → next_token U random (suc fuel) (record tz { scanner = b'<' ∷ s }) ≡ out_of_fuel
  unfolding next_token peek is_space
  next_token-open_tag print fuel s tz e = rw (print, next_token) (rw e refl)

  -- What a scanner holds that `Next` never comes back from: an entity without `;`, a start tag or an end
  -- tag without `>`, or a comment without `>`, with no space or double quote in an entity or a tag, up
  -- to the end of the text.
  pub data IsCutOff : Text → Type 0 where
    entity : (s : Text) → All IsEntityChar s → IsCutOff (b'&' ∷ s)
    start_tag : (s : Text) → IsTagName s → IsCutOff (b'<' ∷ s)
    end_tag : (s : Text) → All IsTagChar s → IsCutOff (b'<' ∷ b'/' ∷ s)
    comment : (s : Text) → All IsCommentChar s → IsCutOff (b'<' ∷ b'!' ∷ s)

  module _ (amp : U.is_print b'&' ≡ true) (less : U.is_print b'<' ≡ true) where
    next_token-cut_off :
        {s : Text} (fuel : ℕ) (tz : Tokenizer)
        → IsCutOff s
        → next_token U random fuel (record tz { scanner = s }) ≡ out_of_fuel
    unfolding parse_xml parse_tag scan_token next next_token
    next_token-cut_off zero tz c = refl
    next_token-cut_off (suc fuel) tz (entity s a) = next_token-open_entity amp (suc fuel) s tz a
    next_token-cut_off (suc fuel) tz (start_tag [] a) = absurd a
    next_token-cut_off (suc fuel) tz (start_tag (c ∷ s) (e, f, a, b)) =
        next_token-open_tag less fuel (c ∷ s) tz
          (parse_xml-start fuel c s e f ∙ xml_loop-open fuel xml_start_token [] (c ∷ s) (a, b))
    next_token-cut_off (suc fuel) tz (end_tag s a) =
        next_token-open_tag less fuel (b'/' ∷ s) tz (xml_loop-open fuel _ [] s a)
    next_token-cut_off (suc fuel) tz (comment s a) =
        next_token-open_tag less fuel (b'!' ∷ s) tz
          (ap (λ r. r >>= λ rest. done (none, rest)) (skip_comment-open fuel s a))

    -- Where the text that is left is an entity, a tag or a comment that the end of the text cuts off, no
    -- number of steps is enough: the call of `Next` for it does not come back, and so `Tokens`, which
    -- waits for it before it passes on anything, does not end.
    pub tokens-cut_off :
        (s : Text) (fuel : ℕ) (tz : Tokenizer)
        → tz.scanner ≡ s
        → IsCutOff s
        → (next_token U random fuel tz ≡ out_of_fuel) × (tokens U random fuel tz ≡ out_of_fuel)
    unfolding tokens
    tokens-cut_off s fuel tz e c = (waits fuel, never fuel)
      where
        waits : (k : ℕ) → next_token U random k tz ≡ out_of_fuel
        waits k =
            ap (λ t. next_token U random k (record tz { scanner = t })) e
            ∙ next_token-cut_off k tz c

        never : (k : ℕ) → tokens U random k tz ≡ out_of_fuel
        never zero = refl
        never (suc k) = rw (waits k) refl
