-- ===== src/Filters/Hyphens/Laws.antt =====
-- What the hyphen filter makes of words that hyphens join.
use irengine.Common.{
  ==_iff, true-false, ℕ, ◌==◌, ◌≡◌, ◌≢◌, refl, sym, ap, ◌∙◌, false, if◌then◌else◌, none, List, [],
  ◌∷◌, ◌++◌, append_assoc, append-nil, All, arith, Text, concat, is_hyphen, is_digit,
  is_ascii_digit, split, join, Bool-cases, inl, inr,
}
use irengine.FileReader.Token.{Token, clone_with_text}
use irengine.Filters.Words.{member}
use irengine.Filters.Words.Slash.{text_list}
use irengine.Filters.Hyphens.{
  some_chars, is_alpha, match_pair, match_alpha_num, match_num_alpha, word_prefixes, has_digit,
  end_field, fields_from, hyphen_fields, clones, split_fields, no_match, hyphen_apply,
}

-- A word: it has a character, and no hyphen and no digit.
abbrev pub IsWord : Text → Type 0
IsWord s = (s ≢ []) × All (λ c. (is_hyphen c ≡ false) × (is_digit c ≡ false)) s

not_minus : (c : ℕ) → is_hyphen c ≡ false → (c == b'-') ≡ false
unfolding is_hyphen
not_minus c h = elim (Bool-cases (c == b'-')) [
  | inr other ↦ other
  | inl same ↦ absurd (true-false (ap is_hyphen (sym ((==_iff c b'-').0 same)) ∙ h))
]

not_ascii_digit : (c : ℕ) → is_digit c ≡ false → is_ascii_digit c ≡ false
unfolding is_digit
not_ascii_digit c h = ground (arith, h)

split-word :
    (s rest : Text)
    → All (λ c. (is_hyphen c ≡ false) × (is_digit c ≡ false)) s
    → (split b'-' s ≡ s ∷ []) × (split b'-' (s ++ b'-' ∷ rest) ≡ s ∷ split b'-' rest)
split-word [] rest h = (refl, refl)
split-word (c ∷ s) rest ((p, q), h) =
    let (alone, more) = split-word s rest h in rw (not_minus c p) (rw alone refl, rw more refl)

split_words :
    (p : Text) (ps : List Text) → All IsWord (p ∷ ps) → split b'-' (join b'-' (p ∷ ps)) ≡ p ∷ ps
split_words p [] ((n, w), h) = (split-word p [] w).0
split_words p (q ∷ ps) ((n, w), h) =
    (split-word p (join b'-' (q ∷ ps)) w).1 ∙ ap (λ l. p ∷ l) (split_words q ps h)

end_field-word : (s : Text) (l : List Text) → s ≢ [] → end_field s l ≡ s ∷ l
unfolding end_field
end_field-word [] l n = absurd (n refl)
end_field-word (c ∷ s) l n = refl

fields_from-word :
    (field s rest : Text)
    → All (λ c. (is_hyphen c ≡ false) × (is_digit c ≡ false)) s
    → (fields_from field s ≡ end_field (field ++ s) [])
      × (fields_from field (s ++ b'-' ∷ rest) ≡ end_field (field ++ s) (fields_from [] rest))
unfolding fields_from is_hyphen
fields_from-word field [] rest h = (
  ap (λ t. end_field t []) (sym (append-nil field)),
  ap (λ t. end_field t (fields_from [] rest)) (sym (append-nil field)),
)
fields_from-word field (c ∷ s) rest ((p, q), h) =
    let (alone, more) = fields_from-word (field ++ c ∷ []) s rest h in
    (
      rw (p, fields_from) (alone ∙ ap (λ t. end_field t []) (append_assoc field (c ∷ []) s)),
      rw (p, fields_from)
          (more ∙ ap (λ t. end_field t (fields_from [] rest)) (append_assoc field (c ∷ []) s)),
    )

hyphen_fields-join :
    (p : Text) (ps : List Text) → All IsWord (p ∷ ps) → fields_from [] (join b'-' (p ∷ ps)) ≡ p ∷ ps
hyphen_fields-join p [] ((n, w), h) = (fields_from-word [] p [] w).0 ∙ end_field-word p [] n
hyphen_fields-join p (q ∷ ps) ((n, w), h) =
    (fields_from-word [] p (join b'-' (q ∷ ps)) w).1
    ∙ end_field-word p _ n
    ∙ ap (λ l. p ∷ l) (hyphen_fields-join q ps h)

has_digit-word :
    (s rest : Text)
    → All (λ c. (is_hyphen c ≡ false) × (is_digit c ≡ false)) s
    → has_digit (s ++ rest) ≡ has_digit rest
unfolding has_digit
has_digit-word [] rest h = refl
has_digit-word (c ∷ s) rest ((p, q), h) = rw q (has_digit-word s rest h)

has_digit-join :
    (p : Text) (ps : List Text) → All IsWord (p ∷ ps) → has_digit (join b'-' (p ∷ ps)) ≡ false
unfolding has_digit is_digit
has_digit-join p [] ((n, w), h) = ap has_digit (sym (append-nil p)) ∙ has_digit-word p [] w
has_digit-join p (q ∷ ps) ((n, w), h) =
    has_digit-word p (b'-' ∷ join b'-' (q ∷ ps)) w ∙ has_digit-join q ps h

-- A word is no number.
word-some_chars : (s : Text) → IsWord s → some_chars is_ascii_digit s ≡ false
word-some_chars [] (n, h) = absurd (n refl)
word-some_chars (c ∷ s) (n, ((p, q), h)) = rw (not_ascii_digit c q) refl

unmatched_right :
    (a b : Text) (ps : List Text)
    → IsWord b
    → match_pair is_alpha is_ascii_digit (a ∷ b ∷ ps) ≡ none
unfolding match_pair
unmatched_right a b [] w =
    rw (word-some_chars b w)
      (elim (Bool-cases (some_chars is_alpha a)) [ inl e ↦ rw e refl | inr e ↦ rw e refl ])
unmatched_right a b (q ∷ ps) w = refl

unmatched_left :
    (a b : Text) (ps : List Text)
    → IsWord a
    → match_pair is_ascii_digit is_alpha (a ∷ b ∷ ps) ≡ none
unfolding match_pair
unmatched_left a b [] w = rw (word-some_chars a w) refl
unmatched_left a b (q ∷ ps) w = refl

text_list-append : (l k : List Token) → text_list (l ++ k) ≡ text_list l ++ text_list k
text_list-append [] k = refl
text_list-append (t ∷ l) k = ap (λ x. t.text ∷ x) (text_list-append l k)

text_list-clones : (tok : Token) (fields : List Text) → text_list (clones tok fields) ≡ fields
unfolding clones clone_with_text
text_list-clones tok [] = refl
text_list-clones tok (p ∷ ps) = rw (text_list-clones tok ps, append-nil) refl

-- The texts for two words or more.
abbrev pub hyphen_texts : List Text → List Text
hyphen_texts (a ∷ b ∷ []) = if member a word_prefixes then (a ++ b) ∷ b ∷ [] else a ∷ b ∷ []
hyphen_texts words = words ++ concat words ∷ []

hyphen_apply-words :
    (tok : Token) (a b : Text) (ps : List Text)
    → tok.text ≡ join b'-' (a ∷ b ∷ ps)
    → All IsWord (a ∷ b ∷ ps)
    → hyphen_apply tok ≡ split_fields tok (a ∷ b ∷ ps)
unfolding hyphen_apply match_alpha_num match_num_alpha no_match hyphen_fields
hyphen_apply-words tok a b ps text (w, (v, h)) =
    let parts = ap (split b'-') text ∙ split_words a (b ∷ ps) (w, (v, h)) in
    let right : match_alpha_num tok.text ≡ none =
      ap (match_pair is_alpha is_ascii_digit) parts ∙ unmatched_right a b ps v in
    let left : match_num_alpha tok.text ≡ none =
      ap (match_pair is_ascii_digit is_alpha) parts ∙ unmatched_left a b ps w in
    let digits = ap has_digit text ∙ has_digit-join a (b ∷ ps) (w, (v, h)) in
    let fields = ap (fields_from []) text ∙ hyphen_fields-join a (b ∷ ps) (w, (v, h)) in
    rw (right, left, digits, hyphen_apply, no_match) (ap (split_fields tok) fields)

-- A token of at least two words that hyphens join, without digits: from more than two words,
-- `HyphenFilter` makes a token for each of them and one for all of them written together; from two words it makes
-- two tokens, the words, or, if the first one is a prefix, both written together and the second one.
pub hyphen_apply_lem :
    (tok : Token) (a b : Text) (ps : List Text)
    → tok.text ≡ join b'-' (a ∷ b ∷ ps)
    → All IsWord (a ∷ b ∷ ps)
    → text_list (hyphen_apply tok) ≡ hyphen_texts (a ∷ b ∷ ps)
unfolding split_fields clone_with_text
hyphen_apply_lem tok a b [] text w =
    ap text_list (hyphen_apply-words tok a b [] text w)
    ∙ elim (Bool-cases (member a word_prefixes)) [
      | inl prefix ↦ rw prefix (ap (λ t. (a ++ t) ∷ t ∷ []) (append-nil b))
      | inr other ↦
          rw other
            (ap (λ t. t ∷ (b ++ []) ∷ []) (append-nil a) ∙ ap (λ t. a ∷ t ∷ []) (append-nil b))
    ]
hyphen_apply_lem tok a b (c ∷ ps) text w =
    ap text_list (hyphen_apply-words tok a b (c ∷ ps) text w)
    ∙ text_list-append (clones tok (a ∷ b ∷ c ∷ ps)) _
    ∙ ap (λ l. l ++ concat (a ∷ b ∷ c ∷ ps) ∷ []) (text_list-clones tok (a ∷ b ∷ c ∷ ps))
