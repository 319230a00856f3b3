-- ===== src/FileReader/Tokenizer/Pages.antt =====
-- Whole texts, made of words, marks, quoted texts and tags with a space before each.
use irengine.Common.{
  ℕ, zero, suc, ◌+◌, ◌<◌, ◌≡◌, refl, ap, ◌∙◌, true, Option, none, some, List, [], ◌∷◌, ◌++◌, arith,
  All, Text, length, length-append,
}
use irengine.FileReader.Token.{Token, new_token, text_token, xml_start_token, xml_end_token}
use irengine.FileReader.Scanner.{Outcome, done, ◌>>=◌, peek}
use irengine.FileReader.Tokenizer.{CharClasses, Tokenizer, new_phrase, next_token, tokens}
use irengine.FileReader.Tokenizer.Words.{
  IsWord, SpaceLaws, IsCut, next_token-space, next_token-word,
}
use irengine.FileReader.Tokenizer.Marks.{IsMark, IsQuotable, next_token-mark, next_token-quoted}
use irengine.FileReader.Tokenizer.Tags.{
  IsTagChar, IsTagName, next_token-start_tag, next_token-end_tag,
}

pub data Item : Type 0 where
  word quoted start_tag end_tag : Text → Item
  mark : ℕ → Item

-- What stands in the text.
abbrev pub written : Item → Text → Text
written (word w) rest = w ++ rest
written (mark c) rest = c ∷ rest
written (quoted s) rest = b'"' ∷ (s ++ b'"' ∷ rest)
written (start_tag s) rest = b'<' ∷ (s ++ b'>' ∷ rest)
written (end_tag s) rest = b'<' ∷ b'/' ∷ (s ++ b'>' ∷ rest)

-- Each item with a space before it.
abbrev pub page : List Item → Text
page [] = []
page (i ∷ items) = b' ' ∷ written i (page items)

abbrev pub IsItem : CharClasses → Item → Type 0
IsItem U (word w) = IsWord U w
IsItem U (mark c) = IsMark U c
IsItem U (quoted s) = All IsQuotable s
IsItem U (start_tag s) = IsTagName s
IsItem U (end_tag s) = All IsTagChar s

-- The marks that open quoted texts and tags are printable punctuation.
pub record MarkLaws (U : CharClasses) : Type 0 where
  pub less : U.is_print b'<' ≡ true
  pub quote : U.is_print b'"' ≡ true
  pub quote_mark : U.is_punct b'"' ≡ true

-- The tokens of the items, in a phrase and with a number of draws made: a word is of the phrase that it
-- is in, a tag is of none, and all that is no word begins a new phrase.
abbrev pub page_tokens : (ℕ → ℕ) → ℕ → ℕ → List Item → List Token
page_tokens random phrase draws [] = []
page_tokens random phrase draws (word w ∷ items) =
    record (new_token w text_token) { phrase_id = phrase } ∷ page_tokens random phrase draws items
page_tokens random phrase draws (mark c ∷ items) =
    page_tokens random (random draws) (draws + 1) items
page_tokens random phrase draws (quoted s ∷ items) =
    page_tokens random (random draws) (draws + 1) items
page_tokens random phrase draws (start_tag s ∷ items) =
    new_token s xml_start_token ∷ page_tokens random (random draws) (draws + 1) items
page_tokens random phrase draws (end_tag s ∷ items) =
    new_token s xml_end_token ∷ page_tokens random (random draws) (draws + 1) items

page-IsCut : (items : List Item) → IsCut (page items)
page-IsCut [] = tt
page-IsCut (i ∷ items) = refl

module _ (U : CharClasses) (random : ℕ → ℕ) where
  -- What `Tokens` does with what `Next` returns.
  abbrev receive : ℕ → Option Token × Tokenizer → Outcome (List Token)
  receive g read = elim (read.0) [
    | none ↦ done []
    | some tok ↦ tokens U random g read.1 >>= λ rest. done (tok ∷ rest)
  ]

  tokens-receive :
      (g : ℕ) (tz : Tokenizer)
      → tokens U random (suc g) tz ≡ (next_token U random g tz >>= receive g)
  unfolding tokens
  tokens-receive g tz = refl

  then :
      (g : ℕ) (tok : Token) (tz : Tokenizer) {ts : List Token}
      → (next_token U random g tz >>= receive g) ≡ done ts
      → receive (suc g) (some tok, tz) ≡ done (tok ∷ ts)
  then g tok tz e = ap (λ r. r >>= λ rest. done (tok ∷ rest)) (tokens-receive g tz ∙ e)

  module _ (spaces : SpaceLaws U) (marks : MarkLaws U) where
    -- The space of an item and its step, with the tokenizer that the step leaves.
    stepped :
        (f g : ℕ) (rest : Text) (tz : Tokenizer) (read : Outcome (Option Token × Tokenizer))
        → next_token U random f (record tz { scanner = rest }) ≡ read
        → (next_token U random (suc f) (record tz { scanner = b' ' ∷ rest }) >>= receive g)
          ≡ (read >>= receive g)
    stepped f g rest tz read e =
        ap (λ r. r >>= receive g) (next_token-space U random spaces f rest tz ∙ e)

    -- One item, with one step for its space and one more.
    received :
        (items : List Item) (f g : ℕ) (tz : Tokenizer)
        → All (IsItem U) items
        → length (page items) + 3 < f
        → length (page items) + 4 < g
        → (next_token U random f (record tz { scanner = page items }) >>= receive g)
          ≡ done (page_tokens random tz.current_phrase_id tz.draws items)
    unfolding next_token peek new_phrase
    received items zero g tz a h k = absurd (omega (arith, h))
    received items (suc zero) g tz a h k = absurd (omega (arith, h))
    received items (suc (suc f)) zero tz a h k = absurd (omega (arith, k))
    received [] (suc (suc f)) (suc g) tz a h k = refl
    received (word [] ∷ items) (suc (suc f)) (suc g) tz (a, b) h k = absurd a
    received (word (c ∷ w) ∷ items) (suc (suc f)) (suc g) tz (a, b) h k =
        stepped (suc f) (suc g) (written (word (c ∷ w)) (page items)) tz _ (
          next_token-word U random spaces f c w (page items) tz (omega (arith, h, long)) a
            (page-IsCut items))
        ∙ then g _ (record tz { scanner = page items })
            (received items g g tz b (omega (arith, k, long)) (omega (arith, k, long)))
      where
        long : length (page (word (c ∷ w) ∷ items)) ≡ suc (suc (length w + length (page items)))
        long = ap (λ n. suc (suc n)) (length-append w (page items))
    received (mark c ∷ items) (suc (suc f)) (suc g) tz (a, b) h k =
        stepped (suc f) (suc g) (c ∷ page items) tz _
          (next_token-mark U random f c (page items) tz a)
        ∙ received items f (suc g) (new_phrase random tz) b (omega (arith, h)) (omega (arith, k))
    received (quoted s ∷ items) (suc (suc f)) (suc g) tz (a, b) h k =
        stepped (suc f) (suc g) (written (quoted s) (page items)) tz _
          (next_token-quoted U random marks.quote marks.quote_mark f s (page items) tz a)
        ∙ received items f (suc g) (new_phrase random tz) b (omega (arith, h, long))
            (omega (arith, k, long))
      where
        long : length (page (quoted s ∷ items)) ≡ suc (suc (length s + suc (length (page items))))
        long = ap (λ n. suc (suc n)) (length-append s (b'"' ∷ page items))
    received (start_tag s ∷ items) (suc (suc f)) (suc g) tz (a, b) h k =
        stepped (suc f) (suc g) (written (start_tag s) (page items)) tz _
          (next_token-start_tag U random marks.less f s (page items) tz (omega (arith, h, long)) a)
        ∙ then g _ (record (new_phrase random tz) { scanner = page items })
            (received items g g (new_phrase random tz) b (omega (arith, k, long))
              (omega (arith, k, long)))
      where
        long :
            length (page (start_tag s ∷ items)) ≡ suc (suc (length s + suc (length (page items))))
        long = ap (λ n. suc (suc n)) (length-append s (b'>' ∷ page items))
    received (end_tag s ∷ items) (suc (suc f)) (suc g) tz (a, b) h k =
        stepped (suc f) (suc g) (written (end_tag s) (page items)) tz _
          (next_token-end_tag U random marks.less f s (page items) tz (omega (arith, h, long)) a)
        ∙ then g _ (record (new_phrase random tz) { scanner = page items })
            (received items g g (new_phrase random tz) b (omega (arith, k, long))
              (omega (arith, k, long)))
      where
        long :
            length (page (end_tag s ∷ items))
            ≡ suc (suc (suc (length s + suc (length (page items)))))
        long = ap (λ n. suc (suc (suc n))) (length-append s (b'>' ∷ page items))

    -- A text that is made of items, in a scanner with at least six units of fuel more than the text is
    -- long, gives the tokens of its items and the end: each word is one text token, whole, in order, of
    -- the phrase that it is in; each tag is one token of its kind; a mark gives none, and a text between
    -- double quotes gives none either, all the words in it included; and a mark, a quoted text or a tag
    -- begins a new phrase.
    pub tokens-page :
        (items : List Item) (fuel : ℕ) (tz : Tokenizer)
        → tz.scanner ≡ page items
        → All (IsItem U) items
        → length (page items) + 5 < fuel
        → tokens U random fuel tz ≡ done (page_tokens random tz.current_phrase_id tz.draws items)
    tokens-page items zero tz e a h = absurd (omega (arith, h))
    tokens-page items (suc fuel) tz e a h =
        ap (λ s. tokens U random (suc fuel) (record tz { scanner = s })) e
        ∙ tokens-receive fuel (record tz { scanner = page items })
        ∙ received items fuel fuel tz a (omega (arith, h)) (omega (arith, h))
