-- ===== src/Filters/Words/Place.antt =====
-- The filters of one token keep its place.
use irengine.Common.{
  refl, ◌&&◌, ltb, List, [], ◌∷◌, All, Text, text_eq, length, split, Option-cases, Bool-cases, inl,
  inr,
}
use irengine.FileReader.Token.{Token, clone}
use irengine.Filters.Place.{KeepsPlace, KeepsPlace-clone, KeepsPlace-one}
use irengine.Filters.Words.{
  digits_repr, digits_apply, lower_apply, texts_of, slash_apply, is_acronym, acronym_apply,
  filename_apply, file_extensions, member, last_text, but_last,
}

module _ (tok : Token) where
  pub digits_place : All (KeepsPlace tok) (digits_apply tok)
  unfolding digits_apply
  digits_place = elim (Option-cases (digits_repr tok.text)) [
    | inl e ↦ rw (e, digits_apply) (KeepsPlace-one tok)
    | inr (r, e) ↦
        rw (e, digits_apply)
          (elim (Bool-cases (text_eq r tok.text)) [
            | inl same ↦ rw same (KeepsPlace-one tok)
            | inr other ↦ rw other (KeepsPlace-clone tok (r ∷ []), tt)
          ])
  ]

  pub lower_place : All (KeepsPlace tok) (lower_apply tok)
  unfolding lower_apply clone
  lower_place = (record { type = refl; doc_id = refl; position = refl; phrase_id = refl }, tt)

  texts_place : (parts : List Text) → All (KeepsPlace tok) (texts_of tok parts)
  unfolding texts_of
  texts_place [] = tt
  texts_place (p ∷ ps) = (KeepsPlace-clone tok (p ∷ []), texts_place ps)

  pub slash_place : All (KeepsPlace tok) (slash_apply tok)
  unfolding slash_apply
  slash_place = elim (Bool-cases (ltb 1 (length (split b'/' tok.text)))) [
    | inl many ↦ rw many (texts_place (split b'/' tok.text))
    | inr one ↦ rw one (KeepsPlace-one tok)
  ]

  pub acronym_place : All (KeepsPlace tok) (acronym_apply tok)
  unfolding acronym_apply clone
  acronym_place = elim (Bool-cases (is_acronym tok.text)) [
    | inl found ↦
        rw found (record { type = refl; doc_id = refl; position = refl; phrase_id = refl }, tt)
    | inr none_found ↦ rw none_found (KeepsPlace-one tok)
  ]

  pub filename_place : All (KeepsPlace tok) (filename_apply tok)
  unfolding filename_apply
  filename_place =
      elim (Bool-cases (
        ltb 1 (length (split b'.' tok.text))
        && member (last_text (split b'.' tok.text)) file_extensions)) [
          | inl found ↦
              rw found (KeepsPlace-clone tok (but_last (split b'.' tok.text)), KeepsPlace-one tok)
          | inr none_found ↦ rw none_found (KeepsPlace-one tok)
        ]
