-- ===== src/Filters/Words/Slash.antt =====
-- The slash filter splits a text at its slashes and loses nothing else.
use irengine.Common.{
  ◌≡◌, refl, false, List, [], ◌∷◌, All, Text, length, ltb, append-nil, split, join, join-split,
  Lacks, split-Lacks, Bool-cases, inl, inr, arith,
}
use irengine.FileReader.Token.{Token, clone_with_text}
use irengine.Filters.Words.{texts_of, slash_apply}

abbrev pub text_list : List Token → List Text
text_list [] = []
text_list (t ∷ ts) = t.text ∷ text_list ts

text_list-texts_of : (tok : Token) (parts : List Text) → text_list (texts_of tok parts) ≡ parts
unfolding texts_of clone_with_text
text_list-texts_of tok [] = refl
text_list-texts_of tok (p ∷ ps) = rw (text_list-texts_of tok ps, append-nil)

-- At most one part: the text itself.
lone-Lacks :
    (l : List Text) (s : Text)
    → ltb 1 (length l) ≡ false
    → join b'/' l ≡ s
    → All (Lacks b'/') l
    → Lacks b'/' s
lone-Lacks [] s h e a = rw (← e) refl
lone-Lacks (p ∷ []) s h e (a, b) = rw (← e) a
lone-Lacks (p ∷ q ∷ ps) s h e a = absurd (ground arith)

-- The texts that `SlashFilter` gives have no slash, and joined by slashes they are the token's text.
pub slash_apply-join :
    (tok : Token)
    → (join b'/' (text_list (slash_apply tok)) ≡ tok.text)
      × All (Lacks b'/') (text_list (slash_apply tok))
unfolding slash_apply
slash_apply-join tok = elim (Bool-cases (ltb 1 (length (split b'/' tok.text)))) [
  | inl many ↦
      rw (many, text_list-texts_of tok (split b'/' tok.text))
        (join-split b'/' tok.text, split-Lacks b'/' tok.text)
  | inr one ↦ rw one (
    refl,
    (
      lone-Lacks (split b'/' tok.text) tok.text one (join-split b'/' tok.text)
          (split-Lacks b'/' tok.text),
      tt,
    ),
  )
]
