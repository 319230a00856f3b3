-- ===== src/FileReader/Trec/RoundTrip.antt =====
-- A file of documents, token by token, and the documents that are read of it.
use irengine.Common.{
  ℕ, zero, suc, ◌+◌, ◌<◌, ◌^◌, ◌%◌, ◌≡◌, ◌⊎◌, inl, inr, refl, sym, ap, ◌∙◌, true, false, none, some,
  List, [], ◌∷◌, ◌++◌, append_assoc, append-nil, length, length-append, All, arith, Text, codes,
}
use irengine.FileReader.Token.{
  Token, TokenType, text_token, xml_start_token, xml_end_token, symbol_token,
}
use irengine.FileReader.Trec.{
  TrecDocument, new_trec_document, add, Parse, read_word, read_token, read, read_loop,
  read_next_doc, read_to_chan, read_all,
}

-- A document in a file: the parts of its number, and its words and symbols.
pub record Source : Type 0 where
  pub number : List Token
  pub words : List Token

abbrev tag : TokenType → Text → Token
tag type name = record {
  text = name;
  type = type;
  doc_id = 0;
  position = 0;
  final = false;
  phrase_id = 0;
}

abbrev pub IsWord : Token → Type 0
IsWord t = (t.type ≡ text_token) ⊎ (t.type ≡ symbol_token)

abbrev pub IsWritable : Source → Type 0
IsWritable d = All (λ t. t.type ≡ text_token) d.number × All IsWord d.words

-- The tokens of a document in a file.
abbrev pub render : Source → List Token
render d =
    tag xml_start_token (codes "DOC")
    ∷ tag xml_start_token (codes "DOCNO")
    ∷ (d.number
        ++ tag xml_end_token (codes "DOCNO")
          ∷ tag xml_start_token (codes "TEXT")
          ∷ (d.words ++ tag xml_end_token (codes "TEXT") ∷ tag xml_end_token (codes "DOC") ∷ []))

abbrev pub render_all : List Source → List Token
render_all [] = []
render_all (d ∷ ds) = render d ++ render_all ds

-- The words of a document, with their positions from `i` on and its id.
abbrev pub placed : ℕ → ℕ → List Token → List Token
placed id i [] = []
placed id i (t ∷ ts) = record t { position = i; doc_id = id } ∷ placed id (i + 1) ts

abbrev texts : List Token → Text
texts [] = []
texts (t ∷ ts) = t.text ++ texts ts

abbrev pub expected : (ℕ → ℕ) → ℕ → Source → TrecDocument
expected rand k d = record {
  tokens = placed (rand k % 2 ^ 32) 1 d.words;
  id = rand k % 2 ^ 32;
  orig_id = texts d.number;
}

abbrev pub all_expected : (ℕ → ℕ) → ℕ → List Source → List TrecDocument
all_expected rand k [] = []
all_expected rand k (d ∷ ds) = expected rand k d ∷ all_expected rand (k + 1) ds

abbrev in_number : ℕ → ℕ → Text → Parse
in_number c k buf = record {
  doc = none;
  in_text = false;
  in_title = true;
  titlebuf = buf;
  doc_counter = c;
  drawn = k;
}

abbrev in_words : ℕ → ℕ → ℕ → Text → List Token → Text → Parse
in_words c k id orig tokens buf = record {
  doc = some (record { tokens = tokens; id = id; orig_id = orig });
  in_text = true;
  in_title = false;
  titlebuf = buf;
  doc_counter = c;
  drawn = k;
}

module _ (rand : ℕ → ℕ) where
  read_number :
      (c k : ℕ) (buf : Text) (number rest : List Token)
      → All (λ t. t.type ≡ text_token) number
      → read_loop rand (in_number c k buf) (number ++ rest)
        ≡ read_loop rand (in_number c k (buf ++ texts number)) rest
  unfolding read_loop read_token read_word
  read_number c k buf [] rest h =
      ap (λ b. read_loop rand (in_number c k b) rest) (sym (append-nil buf))
  read_number c k buf (t ∷ ts) rest (w, h) = rw w (
      read_number c k (buf ++ t.text) ts rest h
      ∙ ap (λ b. read_loop rand (in_number c k b) rest) (append_assoc buf t.text (texts ts)))

  -- One word: it is added to the document.
  read_one :
      (c k id : ℕ) (orig : Text) (tokens : List Token) (buf : Text) (t : Token) (rest : List Token)
      → IsWord t
      → read_loop rand (in_words c k id orig tokens buf) (t ∷ rest)
        ≡ read_loop rand
            (in_words c k id orig (tokens ++ placed id (length tokens + 1) (t ∷ [])) buf)
            rest
  unfolding read_loop read_token read_word add
  read_one c k id orig tokens buf t rest (inl w) = rw w refl
  read_one c k id orig tokens buf t rest (inr w) = rw w refl

  read_words :
      (c k id : ℕ) (orig : Text) (tokens : List Token) (buf : Text) (words rest : List Token)
      → All IsWord words
      → read_loop rand (in_words c k id orig tokens buf) (words ++ rest)
        ≡ read_loop rand
            (in_words c k id orig (tokens ++ placed id (length tokens + 1) words) buf)
            rest
  read_words c k id orig tokens buf [] rest h =
      ap (λ l. read_loop rand (in_words c k id orig l buf) rest) (sym (append-nil tokens))
  read_words c k id orig tokens buf (t ∷ ts) rest (w, h) =
      let more = placed id (length tokens + 1) (t ∷ []) in
      read_one c k id orig tokens buf t (ts ++ rest) w
      ∙ read_words c k id orig (tokens ++ more) buf ts rest h
      ∙ ap (λ l. read_loop rand (in_words c k id orig l buf) rest)
          (append_assoc tokens more _
            ∙ ap (λ n. tokens ++ (more ++ placed id (n + 1) ts)) (length-append tokens more))

  -- A document is read with its words, and the rest of the file is left.
  read_next_doc-render :
      (c k : ℕ) (d : Source) (rest : List Token)
      → IsWritable d
      → read_next_doc rand c k (render d ++ rest) ≡ read (expected rand k d) (c + 1) (k + 1) rest
  unfolding read_next_doc read_loop read_token new_trec_document
  read_next_doc-render c k d rest (n, w) =
      let id = rand k % 2 ^ 32 in
      let number = texts d.number in
      let ends = tag xml_end_token (codes "TEXT") ∷ tag xml_end_token (codes "DOC") ∷ [] in
      let text =
        tag xml_end_token (codes "DOCNO")
        ∷ tag xml_start_token (codes "TEXT")
        ∷ (d.words ++ ends) in
      ap (read_loop rand (in_number (c + 1) k [])) (append_assoc d.number text rest)
      ∙ read_number (c + 1) k [] d.number (text ++ rest) n
      ∙ ap (read_loop rand (in_words (c + 1) (k + 1) id number [] number))
          (append_assoc d.words ends rest)
      ∙ read_words (c + 1) (k + 1) id number [] number d.words (ends ++ rest) w

  read_to_chan-render :
      (fuel c k : ℕ) (ds : List Source)
      → All IsWritable ds
      → length ds < fuel
      → read_to_chan fuel rand c k (render_all ds) ≡ some (all_expected rand k ds, true)
  unfolding read_to_chan
  read_to_chan-render zero c k ds h l = absurd (omega (arith, l))
  read_to_chan-render (suc fuel) c k [] h l = refl
  read_to_chan-render (suc fuel) c k (d ∷ ds) (w, h) l =
      rw
        (
          read_next_doc-render c k d (render_all ds) w,
          read_to_chan-render fuel (c + 1) (k + 1) ds h (omega (arith, l)),
          read_to_chan,
        )
        refl

-- A file of documents gives these documents, each under the next random number: its number is the
-- texts between the tags put together, its words are all there, at the positions from 1 on, and the
-- channel is closed.
pub read_all-render :
    (rand : ℕ → ℕ) (ds : List Source)
    → All IsWritable ds
    → read_all rand (render_all ds) ≡ some (all_expected rand 0 ds, true)
unfolding read_all
read_all-render rand ds h =
    read_to_chan-render rand (suc (length (render_all ds))) 0 0 ds h (many ds)
  where
    many : (ds : List Source) → length ds < suc (length (render_all ds))
    many [] = omega arith
    many (d ∷ ds) = omega (arith, many ds, length-append (render d) (render_all ds))
