-- ===== src/Filters/Place.antt =====
-- What a filter of the sequence keeps of a token: all but the text and the mark `Final`.
use irengine.Common.{◌≡◌, refl, List, [], ◌∷◌, Text, All}
use irengine.FileReader.Token.{Token, clone_with_text}

pub record KeepsPlace (tok t : Token) : Type 0 where
  pub type : t.type ≡ tok.type
  pub doc_id : t.doc_id ≡ tok.doc_id
  pub position : t.position ≡ tok.position
  pub phrase_id : t.phrase_id ≡ tok.phrase_id

module _ (tok : Token) where
  pub KeepsPlace-refl : KeepsPlace tok tok
  KeepsPlace-refl = record { type = refl; doc_id = refl; position = refl; phrase_id = refl }

  pub KeepsPlace-clone : (parts : List Text) → KeepsPlace tok (clone_with_text tok parts)
  unfolding clone_with_text
  KeepsPlace-clone parts = record { type = refl; doc_id = refl; position = refl; phrase_id = refl }

  pub KeepsPlace-one : All (KeepsPlace tok) (tok ∷ [])
  KeepsPlace-one = (KeepsPlace-refl, tt)
