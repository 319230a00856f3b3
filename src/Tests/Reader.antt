-- ===== src/Tests/Reader.antt =====
-- A file of one document.
use irengine.Common.{◌+◌, ◌≡◌, refl, inl, inr, true, some, List, [], ◌∷◌, codes}
use irengine.FileReader.Token.{symbol_token}
use irengine.Tests.{token_of, word}
use irengine.FileReader.Trec.{read_all}
use irengine.FileReader.Trec.RoundTrip.{Source, render_all, all_expected, read_all-render}

abbrev sources : List Source
sources =
    record {
      number = word (codes "FT-") 0 0 ∷ word (codes "7") 0 0 ∷ [];
      words =
          word (codes "New") 0 0
          ∷ word (codes "York") 0 0
          ∷ token_of symbol_token (codes ".") 0 0
          ∷ [];
    }
    ∷ []

read_all-render_example :
    read_all (λ k. k + 5) (render_all sources) ≡ some (all_expected (λ k. k + 5) 0 sources, true)
read_all-render_example =
    read_all-render (λ k. k + 5) sources
      (((refl, (refl, tt)), (inl refl, (inl refl, (inr refl, tt)))), tt)
