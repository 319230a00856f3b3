-- ===== src/Tests/Tokens.antt =====
-- The tokenizer on the texts of tokenizer_test.go, with the classes of ASCII.
use irengine.Common.{
  true, ℕ, ◌==◌, leb, ltb, ◌&&◌, ◌||◌, ◌≡◌, refl, Bool, Option, none, some, List, [], ◌∷◌, Text,
  codes, has_char, is_space, arith,
}
use irengine.FileReader.Trec.{read_all}
use irengine.FileReader.Trec.RoundTrip.{all_expected}
use irengine.FileReader.Trec.FromText.{Article, articles, sources_of, read_all-text}
use irengine.FileReader.Token.{Token, new_token}
use irengine.FileReader.Tokenizer.Words.{SpaceLaws, IsWordChar}
use irengine.FileReader.Tokenizer.Marks.{IsMark}
use irengine.FileReader.Tokenizer.Pages.{
  Item, word, mark, quoted, start_tag, end_tag, page, page_tokens, MarkLaws, tokens-page,
}
use irengine.FileReader.Tokenizer.Endless.{entity, tokens-cut_off}
use irengine.FileReader.Scanner.{◌>>=◌, Outcome, done, panics, out_of_fuel, scan_token, peek, next}
use irengine.FileReader.Tokenizer.{
  CharClasses, Tokenizer, decode_entity, parse_html_entity, parse_xml, parse_compound, next_token,
  tokens, from_reader, reset,
}

abbrev is_letter : ℕ → Bool
is_letter c = leb b'a' c && leb c b'z' || leb b'A' c && leb c b'Z'

abbrev ascii_digit : ℕ → Bool
ascii_digit c = leb b'0' c && leb c b'9'

abbrev ascii : CharClasses
ascii = record {
  is_print = λ c. leb 32 c && ltb c 127;
  is_punct = λ c. has_char c (codes "!\"#%&'()*,-./:;?@[\\]_{}");
  is_alnum = λ c. is_letter c || ascii_digit c || c == b'-';
  is_symbol = λ c. has_char c (codes "!\"#%&'()*,-./:;?@[\\]_{}$+<=>^`|~");
  is_currency = λ c. c == b'$';
}

abbrev texts_of_list : List Token → List (Text × ℕ)
texts_of_list [] = []
texts_of_list (t ∷ ts) = (t.text, t.phrase_id) ∷ texts_of_list ts

abbrev texts : Outcome (List Token) → Option (List (Text × ℕ))
texts (done ts) = some (texts_of_list ts)
texts panics = none
texts out_of_fuel = none

run_of : Text → Option (List (Text × ℕ))
unfolding tokens from_reader parse_compound parse_xml parse_html_entity scan_token peek next
    decode_entity new_token is_space
run_of s = texts (tokens ascii (λ k. k) 60 (from_reader (λ k. k) s))

cfr :
    run_of (codes "(7 CFR) 8c(15)(A)")
    ≡ some ((codes "7", 1) ∷ (codes "CFR", 1) ∷ (codes "8c-15-A", 2) ∷ [])
unfolding run_of
cfr = refl

paragraphs :
    run_of (codes "<DOCNO>DEADBEEF</DOCNO> 8:43pm jim's house")
    ≡ some (
        (codes "DOCNO", 0)
        ∷ (codes "DEADBEEF", 1)
        ∷ (codes "DOCNO", 0)
        ∷ (codes "8:43pm", 2)
        ∷ (codes "jims", 2)
        ∷ (codes "house", 2)
        ∷ [])
unfolding run_of
paragraphs = refl

quotation :
    run_of (codes "he said \"not this\" today")
    ≡ some ((codes "he", 0) ∷ (codes "said", 0) ∷ (codes "today", 1) ∷ [])
unfolding run_of
quotation = refl

abbrev spaces : SpaceLaws ascii
spaces = record { no_alnum = refl; no_symbol = refl }

abbrev marks : MarkLaws ascii
marks = record { less = refl; quote = refl; quote_mark = refl }

letter_a : IsWordChar ascii b'a'
unfolding is_space
letter_a = record {
  print = refl;
  alnum = refl;
  no_punct = refl;
  no_space = refl;
  no_mark = (refl, refl, refl, refl);
}

exclamation : IsMark ascii b'!'
unfolding is_space
exclamation = record { print = refl; punct = refl; no_space = refl; no_start = (refl, refl, refl) }

abbrev items : List Item
items =
    start_tag (codes "b")
    ∷ word (codes "aa")
    ∷ mark b'!'
    ∷ quoted (codes "aa")
    ∷ word (codes "a")
    ∷ end_tag (codes "b")
    ∷ []

-- ` <b> aa ! "aa" a </b>`, read again after a reset.
abbrev page_reader : Tokenizer
page_reader = record { scanner = page items; rd = page items; current_phrase_id = 7; draws = 1 }

tokens-page_example : tokens ascii (λ k. k) 60 page_reader ≡ done (page_tokens (λ k. k) 7 1 items)
unfolding is_space
tokens-page_example =
    tokens-page ascii (λ k. k) spaces marks items 60 page_reader refl
      (
        (refl, refl, (refl, refl, refl), tt),
        (
          (letter_a, (letter_a, tt)),
          (
            exclamation,
            (
              ((refl, refl, refl), ((refl, refl, refl), tt)),
              ((letter_a, tt), (((refl, refl, refl), tt), tt)),
            ),
          ),
        ),
      )
      (omega arith)

reset_start : (reset (λ k. k) (record page_reader { scanner = [] })).scanner ≡ page items
unfolding reset
reset_start = refl

-- `&aa`
abbrev cut_reader : Tokenizer
cut_reader = record { scanner = codes "&aa"; rd = codes "&aa"; current_phrase_id = 0; draws = 1 }

tokens-cut_off_example :
    (next_token ascii (λ k. k) 1000 cut_reader ≡ out_of_fuel)
    × (tokens ascii (λ k. k) 1000 cut_reader ≡ out_of_fuel)
unfolding is_space
tokens-cut_off_example =
    tokens-cut_off ascii (λ k. k) refl refl (codes "&aa") 1000 cut_reader refl
      (entity (codes "aa") ((refl, refl, refl), ((refl, refl, refl), tt)))

-- One article of number `aa` with the text `a ! "aa" aa`.
abbrev one_article : List Article
one_article =
    record {
      number = codes "aa";
      body = word (codes "a") ∷ mark b'!' ∷ quoted (codes "aa") ∷ word (codes "aa") ∷ [];
    }
    ∷ []

abbrev file_reader : Tokenizer
file_reader = record {
  scanner = page (articles one_article);
  rd = page (articles one_article);
  current_phrase_id = 0;
  draws = 1;
}

read_all-text_example :
    (tokens ascii (λ k. k) 100 file_reader >>= λ ts. done (read_all (λ k. k) ts))
    ≡ done (some (all_expected (λ k. k) 0 (sources_of (λ k. k) 0 1 one_article), true))
unfolding is_space
read_all-text_example =
    read_all-text ascii (λ k. k) (λ k. k) spaces marks one_article 100 file_reader refl
      (
        (
          (letter_a, (letter_a, tt)),
          (
            (letter_a, tt),
            (
              exclamation,
              (((refl, refl, refl), ((refl, refl, refl), tt)), ((letter_a, (letter_a, tt)), tt)),
            ),
          ),
        ),
        tt,
      )
      (omega arith)
