-- ===== src/FileReader/Trec/FromText.antt =====
-- The whole way of a file in scanner/filereader: from its text, by the tokenizer, to its documents.
use irengine.Common.{
  ℕ, ◌+◌, ◌<◌, ◌≡◌, inl, refl, ap, ◌∙◌, true, false, some, List, [], ◌∷◌, ◌++◌, All, All-append,
  Text, codes, length, is_space,
}
use irengine.FileReader.Token.{new_token, text_token, xml_start_token, xml_end_token}
use irengine.FileReader.Scanner.{done, ◌>>=◌}
use irengine.FileReader.Tokenizer.{CharClasses, Tokenizer, tokens}
use irengine.FileReader.Tokenizer.Words.{IsWord, SpaceLaws}
use irengine.FileReader.Tokenizer.Pages.{
  Item, word, mark, quoted, start_tag, end_tag, page, page_tokens, IsItem, MarkLaws, tokens-page,
}
use irengine.FileReader.Trec.{read_all}
use irengine.FileReader.Trec.RoundTrip.{
  Source, IsWord as IsReadable, IsWritable, render, render_all, all_expected, read_all-render,
}

-- A document as it is written: its number, and its text with words, marks and quoted texts.
pub record Article : Type 0 where
  pub number : Text
  pub body : List Item

abbrev pub IsBodyItem : CharClasses → Item → Type 0
IsBodyItem U (word w) = IsWord U w
IsBodyItem U (mark c) = IsItem U (mark c)
IsBodyItem U (quoted s) = IsItem U (quoted s)
IsBodyItem U (start_tag s) = ⊥
IsBodyItem U (end_tag s) = ⊥

abbrev pub IsArticle : CharClasses → Article → Type 0
IsArticle U a = IsWord U a.number × All (IsBodyItem U) a.body

abbrev endings : List Item
endings = end_tag (codes "TEXT") ∷ end_tag (codes "DOC") ∷ []

abbrev opening : Article → List Item
opening a =
    start_tag (codes "DOC")
    ∷ start_tag (codes "DOCNO")
    ∷ word a.number
    ∷ end_tag (codes "DOCNO")
    ∷ start_tag (codes "TEXT")
    ∷ []

abbrev pub article : Article → List Item
article a = opening a ++ (a.body ++ endings)

abbrev pub articles : List Article → List Item
articles [] = []
articles (a ∷ more) = article a ++ articles more

-- The phrase and the number of draws behind items.
abbrev pub after : (ℕ → ℕ) → ℕ → ℕ → List Item → ℕ × ℕ
after random phrase draws [] = (phrase, draws)
after random phrase draws (word w ∷ items) = after random phrase draws items
after random phrase draws (mark c ∷ items) = after random (random draws) (draws + 1) items
after random phrase draws (quoted s ∷ items) = after random (random draws) (draws + 1) items
after random phrase draws (start_tag s ∷ items) = after random (random draws) (draws + 1) items
after random phrase draws (end_tag s ∷ items) = after random (random draws) (draws + 1) items

-- The document that an article stands for, its first tag being read after so many draws.
abbrev pub source_of : (ℕ → ℕ) → ℕ → Article → Source
source_of random draws a = record {
  number = page_tokens random (random (draws + 1)) (draws + 1 + 1) (word a.number ∷ []);
  words = page_tokens random (random (draws + 1 + 1 + 1)) (draws + 1 + 1 + 1 + 1) a.body;
}

abbrev pub sources_of : (ℕ → ℕ) → ℕ → ℕ → List Article → List Source
sources_of random phrase draws [] = []
sources_of random phrase draws (a ∷ more) =
    let end = after random phrase draws (article a) in
    source_of random draws a ∷ sources_of random end.0 end.1 more

module _ (random : ℕ → ℕ) where
  page_tokens-append :
      (phrase draws : ℕ) (xs ys : List Item)
      → page_tokens random phrase draws (xs ++ ys)
        ≡ page_tokens random phrase draws xs
          ++ page_tokens random (after random phrase draws xs).0 (after random phrase draws xs).1 ys
  page_tokens-append phrase draws [] ys = refl
  page_tokens-append phrase draws (word w ∷ xs) ys =
      ap (λ ts. record (new_token w text_token) { phrase_id = phrase } ∷ ts)
        (page_tokens-append phrase draws xs ys)
  page_tokens-append phrase draws (mark c ∷ xs) ys =
      page_tokens-append (random draws) (draws + 1) xs ys
  page_tokens-append phrase draws (quoted s ∷ xs) ys =
      page_tokens-append (random draws) (draws + 1) xs ys
  page_tokens-append phrase draws (start_tag s ∷ xs) ys =
      ap (λ ts. new_token s xml_start_token ∷ ts)
        (page_tokens-append (random draws) (draws + 1) xs ys)
  page_tokens-append phrase draws (end_tag s ∷ xs) ys =
      ap (λ ts. new_token s xml_end_token ∷ ts)
        (page_tokens-append (random draws) (draws + 1) xs ys)

  page_tokens-article :
      (phrase draws : ℕ) (a : Article)
      → page_tokens random phrase draws (article a) ≡ render (source_of random draws a)
  unfolding new_token
  page_tokens-article phrase draws a =
      ap (λ ts. page_tokens random phrase draws (opening a) ++ ts)
        (page_tokens-append (random (draws + 1 + 1 + 1)) (draws + 1 + 1 + 1 + 1) a.body endings)

  page_tokens-articles :
      (phrase draws : ℕ) (all : List Article)
      → page_tokens random phrase draws (articles all)
        ≡ render_all (sources_of random phrase draws all)
  page_tokens-articles phrase draws [] = refl
  page_tokens-articles phrase draws (a ∷ more) =
      let end = after random phrase draws (article a) in
      page_tokens-append phrase draws (article a) (articles more)
      ∙ ap (λ ts. ts ++ page_tokens random end.0 end.1 (articles more))
          (page_tokens-article phrase draws a)
      ∙ ap (λ ts. render (source_of random draws a) ++ ts) (page_tokens-articles end.0 end.1 more)

module _ (U : CharClasses) (random : ℕ → ℕ) where
  body-words :
      (phrase draws : ℕ) (items : List Item)
      → All (IsBodyItem U) items
      → All IsReadable (page_tokens random phrase draws items)
  unfolding new_token
  body-words phrase draws [] a = tt
  body-words phrase draws (word w ∷ items) (a, b) = (inl refl, body-words phrase draws items b)
  body-words phrase draws (mark c ∷ items) (a, b) = body-words (random draws) (draws + 1) items b
  body-words phrase draws (quoted s ∷ items) (a, b) = body-words (random draws) (draws + 1) items b
  body-words phrase draws (start_tag s ∷ items) (a, b) = absurd a
  body-words phrase draws (end_tag s ∷ items) (a, b) = absurd a

  sources-IsWritable :
      (phrase draws : ℕ) (all : List Article)
      → All (IsArticle U) all
      → All IsWritable (sources_of random phrase draws all)
  unfolding new_token
  sources-IsWritable phrase draws [] h = tt
  sources-IsWritable phrase draws (a ∷ more) ((n, b), h) =
      let end = after random phrase draws (article a) in
      (
        ((refl, tt), body-words (random (draws + 1 + 1 + 1)) (draws + 1 + 1 + 1 + 1) a.body b),
        sources-IsWritable end.0 end.1 more h,
      )

item-IsItem : (U : CharClasses) (i : Item) → IsBodyItem U i → IsItem U i
item-IsItem U (word w) a = a
item-IsItem U (mark c) a = a
item-IsItem U (quoted s) a = a
item-IsItem U (start_tag s) a = absurd a
item-IsItem U (end_tag s) a = absurd a

body-IsItem :
    (U : CharClasses) (items : List Item) → All (IsBodyItem U) items → All (IsItem U) items
body-IsItem U [] a = tt
body-IsItem U (i ∷ items) (h, a) = (item-IsItem U i h, body-IsItem U items a)

-- What each of the tags' characters has to be checked for.
abbrev Fine : Type 0
Fine = (false ≡ false) × (false ≡ false) × (false ≡ false)

opening-IsItem : (U : CharClasses) (a : Article) → IsWord U a.number → All (IsItem U) (opening a)
unfolding is_space
opening-IsItem U a n =
    let ok : Fine = (refl, refl, refl) in
    (
      (refl, refl, ok, (ok, (ok, tt))),
      (
        (refl, refl, ok, (ok, (ok, (ok, (ok, tt))))),
        (n, ((ok, (ok, (ok, (ok, (ok, tt))))), ((refl, refl, ok, (ok, (ok, (ok, tt)))), tt))),
      ),
    )

endings-IsItem : (U : CharClasses) → All (IsItem U) endings
unfolding is_space
endings-IsItem U =
    let ok : Fine = (refl, refl, refl) in ((ok, (ok, (ok, (ok, tt)))), ((ok, (ok, (ok, tt))), tt))

articles-IsItem :
    (U : CharClasses) (all : List Article) → All (IsArticle U) all → All (IsItem U) (articles all)
articles-IsItem U [] h = tt
articles-IsItem U (a ∷ more) ((n, b), h) =
    All-append (IsItem U) (article a) (articles more)
      (All-append (IsItem U) (opening a) (a.body ++ endings) (opening-IsItem U a n)
        (All-append (IsItem U) a.body endings (body-IsItem U a.body b) (endings-IsItem U)))
      (articles-IsItem U more h)

-- A file whose text is written with the tags of TREC, an article for each document, is read by the
-- tokenizer, with at least six units of fuel more than the text is long, and by `ReadAll` to one document
-- for each article, in order, and the channel is closed: each has the number of its article and the
-- words of its text, but for those in quotes, at the positions from 1 on, in their phrases.
pub read_all-text :
    (U : CharClasses) (random rand : ℕ → ℕ)
    → SpaceLaws U
    → MarkLaws U
    → (all : List Article) (fuel : ℕ) (tz : Tokenizer) → tz.scanner ≡ page (articles all)
    → All (IsArticle U) all
    → length (page (articles all)) + 5 < fuel
    → (tokens U random fuel tz >>= λ ts. done (read_all rand ts))
      ≡ done
          (some (all_expected rand 0 (sources_of random tz.current_phrase_id tz.draws all), true))
read_all-text U random rand spaces marks all fuel tz e a h =
    ap (λ r. r >>= λ ts. done (read_all rand ts))
      (tokens-page U random spaces marks (articles all) fuel tz e (articles-IsItem U all a) h)
    ∙ ap (λ ts. done (read_all rand ts))
        (page_tokens-articles random tz.current_phrase_id tz.draws all)
    ∙ ap done (
        read_all-render rand (sources_of random tz.current_phrase_id tz.draws all)
          (sources-IsWritable U random tz.current_phrase_id tz.draws all a))
