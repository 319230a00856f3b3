-- ===== src/Filters/Hyphens/Place.antt =====
-- The hyphen filter keeps a token's place.
use irengine.Common.{
  refl, ◌++◌, List, [], ◌∷◌, All, All-append, Text, leb, length, Option-cases, Bool-cases, inl, inr,
}
use irengine.FileReader.Token.{Token, clone}
use irengine.Filters.Place.{KeepsPlace, KeepsPlace-clone, KeepsPlace-one}
use irengine.Filters.Words.{member}
use irengine.Filters.Hyphens.{
  final_text, matched, clones, word_prefixes, split_fields, has_digit, hyphen_fields, no_match,
  match_alpha_num, match_num_alpha, hyphen_apply,
}

module _ (tok : Token) where
  final_place : (text : Text) → KeepsPlace tok (final_text tok text)
  unfolding final_text clone
  final_place text = record { type = refl; doc_id = refl; position = refl; phrase_id = refl }

  matched_place : (a b letters : Text) → All (KeepsPlace tok) (matched tok a b letters)
  unfolding matched
  matched_place a b letters = elim (Bool-cases (leb 3 (length letters))) [
    | inl long ↦ rw long (final_place (a ++ b), (final_place letters, tt))
    | inr short ↦ rw short (final_place (a ++ b), tt)
  ]

  clones_place : (fields : List Text) → All (KeepsPlace tok) (clones tok fields)
  unfolding clones
  clones_place [] = tt
  clones_place (f ∷ fs) = (KeepsPlace-clone tok (f ∷ []), clones_place fs)

  fields_place : (fields : List Text) → All (KeepsPlace tok) (split_fields tok fields)
  unfolding split_fields
  fields_place [] = (KeepsPlace-clone tok [], tt)
  fields_place (a ∷ []) = KeepsPlace-one tok
  fields_place (a ∷ b ∷ []) = elim (Bool-cases (member a word_prefixes)) [
    | inl prefix ↦
        rw prefix (KeepsPlace-clone tok (a ∷ b ∷ []), (KeepsPlace-clone tok (b ∷ []), tt))
    | inr word ↦ rw word (KeepsPlace-clone tok (a ∷ []), (KeepsPlace-clone tok (b ∷ []), tt))
  ]
  fields_place (a ∷ b ∷ c ∷ fs) =
      All-append (KeepsPlace tok) (clones tok (a ∷ b ∷ c ∷ fs)) _ (clones_place (a ∷ b ∷ c ∷ fs))
        (KeepsPlace-clone tok (a ∷ b ∷ c ∷ fs), tt)

  no_match_place : All (KeepsPlace tok) (no_match tok)
  unfolding no_match
  no_match_place = elim (Bool-cases (has_digit tok.text)) [
    | inl digit ↦ rw digit (KeepsPlace-one tok)
    | inr words ↦ rw words (fields_place (hyphen_fields tok.text))
  ]

  pub hyphen_place : All (KeepsPlace tok) (hyphen_apply tok)
  unfolding hyphen_apply
  hyphen_place = elim (Option-cases (match_alpha_num tok.text)) [
    | inr ((a, n), e) ↦ rw (e, hyphen_apply) (matched_place a n a)
    | inl e ↦
        rw (e, hyphen_apply)
          (elim (Option-cases (match_num_alpha tok.text)) [
            | inr ((n, a), h) ↦ rw (h, hyphen_apply) (matched_place n a a)
            | inl h ↦ rw (h, hyphen_apply) no_match_place
          ])
  ]
