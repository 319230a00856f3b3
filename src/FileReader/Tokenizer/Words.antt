-- ===== src/FileReader/Tokenizer/Words.antt =====
-- Plain words between spaces.
use irengine.Common.{
  ℕ, zero, suc, ◌<◌, ◌==◌, ◌≡◌, refl, sym, ap, ◌∙◌, Bool, true, false, not, ◌||◌, [], ◌∷◌, ◌++◌,
  append_assoc, append-nil, arith, All, Text, is_space, length,
}
use irengine.FileReader.Scanner.{done, char, scan_token, peek}
use irengine.FileReader.Tokenizer.{
  CharClasses, Tokenizer, finish, compound_loop, parse_compound, next_token,
}

-- A printable letter or digit that the scanner and `Next` take for nothing else.
pub record IsWordChar (U : CharClasses) (c : ℕ) : Type 0 where
  pub print : U.is_print c ≡ true
  pub alnum : U.is_alnum c ≡ true
  pub no_punct : U.is_punct c ≡ false
  pub no_space : is_space c ≡ false
  pub no_mark :
      ((c == b'&') ≡ false) × ((c == b'<') ≡ false) × ((c == b'`') ≡ false) × ((c == b'"') ≡ false)

abbrev pub IsWord : CharClasses → Text → Type 0
IsWord U [] = ⊥
IsWord U (c ∷ w) = IsWordChar U c × All (IsWordChar U) w

-- A space belongs to neither class.
pub record SpaceLaws (U : CharClasses) : Type 0 where
  pub no_alnum : U.is_alnum b' ' ≡ false
  pub no_symbol : U.is_symbol b' ' ≡ false

-- The end of the text, or a space.
abbrev pub IsCut : Text → Type 0
IsCut [] = Unit
IsCut (c ∷ s) = c ≡ b' '

pub scan-char :
    (c : ℕ) (s : Text) → (c == b'"') ≡ false → scan_token (c ∷ s) ≡ done (char c, c ∷ [], s)
unfolding scan_token
scan-char c s h = rw (h, scan_token) refl

pub or_true : (b : Bool) → b || true ≡ true
or_true true = refl
or_true false = refl

module _ (U : CharClasses) (random : ℕ → ℕ) where
  compound_loop-char :
      (fuel : ℕ) (entity : Text) (phrase c : ℕ) (s : Text) (tz : Tokenizer)
      → IsWordChar U c
      → compound_loop U random (suc fuel) entity phrase (record tz { scanner = c ∷ s })
        ≡ compound_loop U random fuel (entity ++ c ∷ []) phrase (record tz { scanner = s })
  unfolding compound_loop peek
  compound_loop-char fuel entity phrase c s tz w =
      rw (w.no_mark.0, compound_loop)
        (rw (w.no_mark.1, compound_loop)
          (rw (w.alnum, compound_loop) (rw (scan-char c s w.no_mark.3) refl)))

  module _ (laws : SpaceLaws U) where
    compound_loop-stop :
        (fuel : ℕ) (entity : Text) (phrase : ℕ) (rest : Text) (tz : Tokenizer)
        → IsCut rest
        → compound_loop U random (suc fuel) entity phrase (record tz { scanner = rest })
          ≡ done (finish entity phrase, record tz { scanner = rest })
    unfolding compound_loop peek
    compound_loop-stop fuel entity phrase [] tz cut = refl
    compound_loop-stop fuel entity phrase (c ∷ s) tz cut =
        rw cut (rw (laws.no_alnum, compound_loop) (rw (laws.no_symbol, compound_loop) refl))

    compound_loop-word :
        (fuel : ℕ) (entity w : Text) (phrase : ℕ) (rest : Text) (tz : Tokenizer)
        → length w < fuel
        → All (IsWordChar U) w
        → IsCut rest
        → compound_loop U random fuel entity phrase (record tz { scanner = w ++ rest })
          ≡ done (finish (entity ++ w) phrase, record tz { scanner = rest })
    compound_loop-word zero entity w phrase rest tz h a cut = absurd (omega arith)
    compound_loop-word (suc fuel) entity [] phrase rest tz h a cut =
        compound_loop-stop fuel entity phrase rest tz cut
        ∙ ap (λ e. done (finish e phrase, record tz { scanner = rest })) (sym (append-nil entity))
    compound_loop-word (suc fuel) entity (c ∷ w) phrase rest tz h (a, b) cut =
        compound_loop-char fuel entity phrase c (w ++ rest) tz a
        ∙ compound_loop-word fuel (entity ++ c ∷ []) w phrase rest tz (omega (arith, h)) b cut
        ∙ ap (λ e. done (finish e phrase, record tz { scanner = rest }))
            (append_assoc entity (c ∷ []) w)

    pub next_token-space :
        (fuel : ℕ) (s : Text) (tz : Tokenizer)
        → next_token U random (suc fuel) (record tz { scanner = b' ' ∷ s })
          ≡ next_token U random fuel (record tz { scanner = s })
    unfolding next_token peek is_space scan_token
    next_token-space fuel s tz = rw (or_true (not (U.is_print b' ')), next_token) refl

    pub next_token-word :
        (fuel c : ℕ) (w rest : Text) (tz : Tokenizer)
        → length (c ∷ w) < fuel
        → IsWord U (c ∷ w)
        → IsCut rest
        → next_token U random (suc fuel) (record tz { scanner = (c ∷ w) ++ rest })
          ≡ done (finish (c ∷ w) tz.current_phrase_id, record tz { scanner = rest })
    unfolding next_token peek parse_compound
    next_token-word fuel c w rest tz h (a, b) cut =
        rw (a.print, next_token)
          (rw (a.no_space, next_token)
            (rw (a.no_mark.1, next_token)
              (rw (a.no_mark.0, next_token)
                (rw (a.no_mark.2, next_token)
                  (rw (a.no_punct, next_token)
                    (rw
                      (compound_loop-word fuel [] (c ∷ w) tz.current_phrase_id rest tz h (a, b) cut)
                      refl))))))
