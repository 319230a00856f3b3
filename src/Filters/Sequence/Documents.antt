-- ===== src/Filters/Sequence/Documents.antt =====
-- The sequence of filters keeps the documents apart.
use irengine.Common.{ℕ, ◌≡◌, refl, Bool, false, List, [], ◌∷◌, All, Text}
use irengine.FileReader.Token.{Token}
use irengine.Filters.Plumbing.{Filter, Stage, stage, piped}
use irengine.Filters.Plumbing.Chain.{
  is_null, is_symbol, IsWordOf, IsQuiet, Delimits, Delimits-stage, Delimits-piped,
}
use irengine.Filters.Place.{KeepsPlace}
use irengine.Filters.Words.{
  word_filter, new_lower_case_filter, new_digits_filter, new_slash_filter, new_acronym_filter,
  new_filename_filter,
}
use irengine.Filters.Words.Place.{
  digits_place, lower_place, slash_place, acronym_place, filename_place,
}
use irengine.Filters.Hyphens.{new_hyphen_filter}
use irengine.Filters.Hyphens.Place.{hyphen_place}
use irengine.Filters.Dates.{date_filter}
use irengine.Filters.Dates.Place.{date_apply_place}
use irengine.Filters.Sequence.{single_term_filter_sequence}

-- A filter whose tokens keep the place of the one that it reads.
record Places (f : Filter) : Type 0 where
  placed : (s : f.State) (tok : Token) → All (KeepsPlace tok) (f.apply s tok).1
  silent : (s : f.State) → (f.notify_doc_complete s).1 ≡ []

words_of_place :
    (tok : Token) (l : List Token)
    → is_null tok ≡ false
    → is_symbol tok ≡ false
    → All (KeepsPlace tok) l
    → All (IsWordOf tok) l
words_of_place tok [] n y h = tt
words_of_place tok (t ∷ ts) n y (p, h) =
    ((rw p.type n, rw p.type y, p.doc_id), words_of_place tok ts n y h)

Places-IsQuiet : (f : Filter) → Places f → IsQuiet f
Places-IsQuiet f pl = record {
  apply_words = λ s tok n y. words_of_place tok (f.apply s tok).1 n y (pl.placed s tok);
  silent = pl.silent;
}

Places-word_filter :
    (id : Text) (b : Bool) (apply : Token → List Token)
    → ((tok : Token) → All (KeepsPlace tok) (apply tok))
    → Places (word_filter id b apply)
Places-word_filter id b apply h = record { placed = λ s tok. h tok; silent = λ s. refl }

Places-date_filter : (now_year : ℕ) → Places (date_filter now_year)
unfolding date_filter
Places-date_filter now_year = record {
  placed = λ s tok. date_apply_place tok now_year s;
  silent = λ s. refl;
}

-- What holds of each filter of the sequence and is kept by `piped` holds of the sequence.
sequence_induction :
    (Q : Stage → Type 0)
    → ((f : Filter) → Places f → Q (stage f))
    → ((a b : Stage) → Q a → Q b → Q (piped a b))
    → (now_year : ℕ) → Q (single_term_filter_sequence now_year)
unfolding single_term_filter_sequence new_lower_case_filter new_digits_filter new_slash_filter
    new_acronym_filter new_filename_filter new_hyphen_filter
sequence_induction Q one two now_year =
    two _ _
      (two _ _
        (two _ _
          (two _ _
            (two _ _
              (two _ _ (one _ (Places-word_filter _ _ _ digits_place))
                (one _ (Places-date_filter now_year)))
              (one _ (Places-word_filter _ _ _ hyphen_place)))
            (one _ (Places-word_filter _ _ _ slash_place)))
          (one _ (Places-word_filter _ _ _ acronym_place)))
        (one _ (Places-word_filter _ _ _ filename_place)))
      (one _ (Places-word_filter _ _ _ lower_place))

-- Whatever their states, the filters send the end of a document at once when they read it, as it is and
-- alone; for any other token they send only words of that token's document, and never a symbol. (A word
-- may be sent with a later token only.)
pub single_term-Delimits : (now_year : ℕ) → Delimits (single_term_filter_sequence now_year)
single_term-Delimits =
    sequence_induction Delimits (λ f p. Delimits-stage f (Places-IsQuiet f p)) Delimits-piped
