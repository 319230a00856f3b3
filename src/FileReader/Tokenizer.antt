-- ===== src/FileReader/Tokenizer.antt =====
-- `BadXMLTokenizer` of scanner/filereader/tokenizer.go. `random k` is the k-th number that `rand.Intn(1000)`
-- gives. Loops have fuel: some of them do not end.
pub mod Words
pub mod Endless
pub mod Marks
pub mod Tags
pub mod Pages
use irengine.Common.{
  ltb, ℕ, zero, suc, ◌+◌, ◌==◌, if◌then◌else◌, Bool, true, false, not, ◌||◌, ◌&&◌, Option, none,
  some, List, [], ◌∷◌, ◌++◌, Text, codes, text_eq, is_space,
}
use irengine.FileReader.Token.{
  Token, TokenType, new_token, text_token, symbol_token, xml_start_token, xml_end_token,
}
use irengine.FileReader.Scanner.{
  Outcome, done, panics, out_of_fuel, ◌>>=◌, Scanned, eof, char, literal, peek, next, scan_token,
}

-- The classes of package unicode: `alnum` and `symbols` are the two lists of tables.
pub record CharClasses : Type 0 where
  pub is_print : ℕ → Bool
  pub is_punct : ℕ → Bool
  pub is_alnum : ℕ → Bool
  pub is_symbol : ℕ → Bool
  pub is_currency : ℕ → Bool

pub record Tokenizer : Type 0 where
  pub scanner : Text
  pub rd : Text
  pub current_phrase_id : ℕ
  pub draws : ℕ

abbrev same_as : Text → List Text → Bool
same_as s [] = false
same_as s (t ∷ ts) = text_eq s t || same_as s ts

-- `decodeEntity`; all other entities are decoded to nothing.
unfoldable pub decode_entity : Text → Option Text
decode_entity entity =
    if text_eq entity (codes "&hyph;")
    then some (codes "-")
    else if text_eq entity (codes "&lt;")
    then some (codes "<")
    else if text_eq entity (codes "&gt;")
    then some (codes ">")
    else if text_eq entity (codes "&times;")
    then some (codes "x")
    else if text_eq entity (codes "&eacute;")
    then some (0xe9 ∷ [])
    else if text_eq entity (codes "&uuml;")
    then some (0xfc ∷ [])
    else if text_eq entity (codes "&ntilde;")
    then some (0xf1 ∷ [])
    else if text_eq entity (codes "&aacute;")
    then some (0xe1 ∷ [])
    else if text_eq entity (codes "&iacute;")
    then some (0xed ∷ [])
    else if text_eq entity (codes "&oacute;")
    then some (0xf3 ∷ [])
    else if same_as entity (codes "&rsquo;" ∷ codes "&lsquo;" ∷ [])
    then some (codes "'")
    else none

abbrev scanned_is : Scanned → ℕ → Bool
scanned_is (char c) d = c == d
scanned_is eof d = false
scanned_is literal d = false

abbrev scanned_space : Scanned → Bool
scanned_space (char c) = is_space c
scanned_space eof = false
scanned_space literal = false

-- An entity of more than one byte. (One character of more than one byte is more than one, too.)
abbrev is_long : Text → Bool
is_long [] = false
is_long (c ∷ []) = not (ltb c 0x80)
is_long (c ∷ d ∷ s) = true

abbrev pub symbol_of : Text → Option Token
symbol_of text = some (new_token text symbol_token)

-- The loop of `parseHTMLEntity`: the token, or nil, and the rest.
unfoldable pub html_loop : ℕ → Text → Text → Outcome (Option Token × Text)
html_loop zero entity sc = out_of_fuel
html_loop (suc fuel) entity sc = do
  read ← scan_token sc
  elim (scanned_space read.0) [
    | true ↦ done (if is_long entity then symbol_of entity else none, read.2)
    | false ↦ elim (scanned_is read.0 b';') [
      | true ↦ done (
        elim (decode_entity (entity ++ b';' ∷ [])) [
          | none ↦ none
          | some decoded ↦ symbol_of decoded
        ],
        read.2,
      )
      | false ↦ html_loop fuel (entity ++ read.1) read.2
    ]
  ]

-- `parseHTMLEntity`
unfoldable pub parse_html_entity : ℕ → Text → Outcome (Option Token × Text)
unfolding html_loop
parse_html_entity fuel sc = html_loop fuel [] sc

-- The loop that skips a comment up to `>`.
unfoldable pub skip_comment : ℕ → Text → Outcome Text
skip_comment zero sc = out_of_fuel
skip_comment (suc fuel) sc = elim ((next sc).0) [
  | none ↦ skip_comment fuel (next sc).1
  | some c ↦ elim (c == b'>') [ true ↦ done (next sc).1 | false ↦ skip_comment fuel (next sc).1 ]
]

-- The last loop of `parseXML`
unfoldable pub xml_loop : ℕ → TokenType → Text → Text → Outcome (Option Token × Text)
xml_loop zero type entity sc = out_of_fuel
xml_loop (suc fuel) type entity sc = do
  read ← scan_token sc
  elim (scanned_is read.0 b'>') [
    | true ↦ done (some (new_token entity type), read.2)
    | false ↦ elim (scanned_space read.0) [
      | true ↦ done (none, read.2)
      | false ↦ xml_loop fuel type (entity ++ read.1) read.2
    ]
  ]

abbrev peek_is : Text → ℕ → Bool
peek_is [] d = false
peek_is (c ∷ s) d = c == d

-- `parseXML` behind `<`
unfoldable pub parse_tag : ℕ → Text → Outcome (Option Token × Text)
unfolding skip_comment xml_loop next
parse_tag fuel sc = elim (peek_is sc b'/') [
  | true ↦ xml_loop fuel xml_end_token [] (next sc).1
  | false ↦ elim (peek_is sc b'!') [
    | true ↦ skip_comment fuel (next sc).1 >>= λ rest. done (none, rest)
    | false ↦ xml_loop fuel xml_start_token [] sc
  ]
]

-- `parseXML`
unfoldable pub parse_xml : ℕ → Text → Outcome (Option Token × Text)
unfolding parse_tag
parse_xml fuel sc = do read ← scan_token sc; parse_tag fuel read.2

-- The text entity so far, as the token that ends it; false where there is none.
abbrev pub finish : Text → ℕ → Option Token
finish [] phrase = none
finish (c ∷ s) phrase = some (record (new_token (c ∷ s) text_token) { phrase_id = phrase })

module _ (random : ℕ → ℕ) where
  -- `tz.current_phrase_id = rand.Intn(1000)`
  unfoldable pub new_phrase : Tokenizer → Tokenizer
  new_phrase tz = record tz { current_phrase_id = random tz.draws; draws = tz.draws + 1 }

  -- `BadXMLTokenizer_FromReader`
  unfoldable pub from_reader : Text → Tokenizer
  from_reader rd = record { scanner = rd; rd = rd; current_phrase_id = random 0; draws = 1 }

  -- `Reset`, which seeks to the start of the reader.
  unfoldable pub reset : Tokenizer → Tokenizer
  unfolding new_phrase
  reset tz = record (new_phrase tz) { scanner = tz.rd }

module _ (U : CharClasses) where
  -- The switch behind a symbol: what it adds to the entity.
  unfoldable pub join_symbol : ℕ → Text → Option Token → Text
  join_symbol next entity none = if U.is_currency next then entity ++ next ∷ [] else entity
  join_symbol next entity (some part2) =
      if next == b'\''
      then entity ++ part2.text
      else if next == b'('
      then entity ++ (b'-' ∷ part2.text)
      else if next == b')'
      then entity ++ part2.text
      else entity ++ (next ∷ part2.text)

module _ (U : CharClasses) (random : ℕ → ℕ) where
  abbrev pub after_symbol : ℕ → Option Token → Tokenizer → Tokenizer
  after_symbol next (some part2) tz = tz
  after_symbol next none tz =
      if U.is_currency next || next == b'\'' then tz else new_phrase random tz

  -- The loop of `parseCompound`
  unfoldable pub compound_loop : ℕ → Text → ℕ → Tokenizer → Outcome (Option Token × Tokenizer)
  unfolding new_phrase join_symbol
  compound_loop zero entity phrase tz = out_of_fuel
  compound_loop (suc fuel) entity phrase tz = elim (peek tz.scanner) [
    | none ↦ done (finish entity phrase, tz)
    | some next ↦ elim (next == b'&') [
      | true ↦ do
        read ← parse_html_entity fuel tz.scanner
        let tz' = record tz { scanner = read.1 }
        elim (read.0) [
          | some token ↦ compound_loop fuel (entity ++ token.text) phrase tz'
          | none ↦ elim (finish entity phrase) [
            | some tok ↦ done (some tok, tz')
            | none ↦ compound_loop fuel entity phrase tz'
          ]
        ]
      | false ↦ elim (next == b'<') [
        | true ↦ done (finish entity phrase, tz)
        | false ↦ elim (U.is_alnum next) [
          | true ↦ do
            read ← scan_token tz.scanner
            compound_loop fuel (entity ++ read.1) phrase (record tz { scanner = read.2 })
          | false ↦ elim (U.is_symbol next) [
            | false ↦ done (finish entity phrase, tz)
            | true ↦ do
              read ← scan_token tz.scanner
              part2 ← compound_loop fuel [] tz.current_phrase_id (record tz { scanner = read.2 })
              compound_loop fuel (join_symbol U next entity part2.0) phrase
                  (after_symbol next part2.0 part2.1)
          ]
        ]
      ]
    ]
  ]

  -- `parseCompound`
  unfoldable pub parse_compound : ℕ → Tokenizer → Outcome (Option Token × Tokenizer)
  unfolding compound_loop
  parse_compound fuel tz = compound_loop fuel [] tz.current_phrase_id tz

  -- `Next`: no token is EOF.
  unfoldable pub next_token : ℕ → Tokenizer → Outcome (Option Token × Tokenizer)
  unfolding new_phrase
  next_token zero tz = out_of_fuel
  next_token (suc fuel) tz = elim (peek tz.scanner) [
    | none ↦ done (none, tz)
    | some tok ↦ elim (not (U.is_print tok) || is_space tok) [
      | true ↦ do read ← scan_token tz.scanner; next_token fuel (record tz { scanner = read.2 })
      | false ↦ elim (tok == b'<') [
        | true ↦ do
          read ← parse_xml fuel tz.scanner
          let tz' = new_phrase random (record tz { scanner = read.1 })
          elim (read.0) [ some token ↦ done (some token, tz') | none ↦ next_token fuel tz' ]
        | false ↦ elim (tok == b'&') [
          | true ↦ do
            read ← parse_html_entity fuel tz.scanner
            let tz' = record tz { scanner = read.1 }
            elim (read.0) [
              | some token ↦ done (some token, new_phrase random tz')
              | none ↦ next_token fuel tz'
            ]
          | false ↦ elim (tok == b'`' || U.is_punct tok) [
            | true ↦ do
              read ← scan_token tz.scanner
              next_token fuel (record (new_phrase random tz) { scanner = read.2 })
            | false ↦ do
              read ← parse_compound fuel tz
              elim (read.0) [
                | some token ↦ done (some token, read.1)
                | none ↦ do
                  more ← scan_token (read.1).scanner
                  next_token fuel (record (read.1) { scanner = more.2 })
              ]
          ]
        ]
      ]
    ]
  ]

  -- `Tokens`: what comes into the channel until it is closed.
  unfoldable pub tokens : ℕ → Tokenizer → Outcome (List Token)
  unfolding next_token
  tokens zero tz = out_of_fuel
  tokens (suc fuel) tz = do
    read ← next_token fuel tz
    elim (read.0) [ none ↦ done [] | some tok ↦ tokens fuel (read.1) >>= λ rest. done (tok ∷ rest) ]
