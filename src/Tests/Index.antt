-- ===== src/Tests/Index.antt =====
-- The index on two small documents.
use irengine.Common.{
  Option, ℕ, ◌≡◌, refl, ap, true, false, none, some, List, [], ◌∷◌, ◌++◌, arith, length, select,
  codes, nat_key,
}
use irengine.FileReader.Token.{Token}
use irengine.Tests.{word, doc_end}
use irengine.Indexer.SkipMap.{SkipMap, ordered_list, is_some}
use irengine.Indexer.TermMap.{TermMap, association_list}
use irengine.Indexer.Entry.{Entry, positional, serialize, scan}
use irengine.Indexer.Entry.RoundTrip.{fresh, scan-serialize}
use irengine.Indexer.PostingList.{
  PostingList, create_basic, create_positional, get_entry, insert_entry, remove, filter_sequential,
}
use irengine.Indexer.PostingList.Valid.{IsValid, create-IsValid, insert_entry-IsValid}
use irengine.Indexer.PostingList.History.{
  insert_all, Tracks, insert_all-positional, insert_all-basic, occurrences, summary,
}
use irengine.Indexer.PostingList.Filter.{sequential}
use irengine.Indexer.PostingList.Sequential.{filter_sequential_lem}
use irengine.Indexer.PostingList.Remove.{Without, remove_lem}
use irengine.Indexer.Lexicon.{Term}
use irengine.Indexer.Lexicon.Terms.{
  is_of, made, insert_tokens, find-insert_tokens, indexed_positions,
}
use irengine.Indexer.SingleTerm.{StoredDocInfo, Weights, SingleTermIndex, inserter}
use irengine.Indexer.SingleTerm.Documents.{IsIndexed, inserter_lem}
use irengine.QueryEngine.Positional.{retrieve_lists, filter_positional}
use irengine.QueryEngine.Positional.ByDocument.{
  in_document, IsUsable, of_document, all_of_document, filter_positional_lem,
}

abbrev S : SkipMap Entry
S = ordered_list Entry

abbrev T : TermMap (Term S)
T = association_list (Term S)

-- "new york" in document 7, and "york new york" in document 9.
abbrev tokens : List Token
tokens =
    word (codes "new") 7 1
    ∷ word (codes "york") 7 2
    ∷ word (codes "york") 9 1
    ∷ word (codes "new") 9 2
    ∷ word (codes "york") 9 3
    ∷ []

abbrev new_list : PostingList S
new_list = insert_all S (create_positional S) (select (is_of (codes "new")) tokens)

abbrev york_list : PostingList S
york_list = insert_all S (create_positional S) (select (is_of (codes "york")) tokens)

scan-serialize_example :
    scan (fresh (positional 9 (1 ∷ 3 ∷ []))) (serialize (positional 9 (1 ∷ 3 ∷ [])))
    ≡ some (positional 9 (1 ∷ 3 ∷ []), [])
scan-serialize_example =
    scan-serialize (positional 9 (1 ∷ 3 ∷ []))
      (omega arith, (omega arith, (omega arith, tt)), ((omega arith, tt), (tt, tt)))

insert_entry-IsValid_example :
    IsValid S (insert_entry S (create_basic S) (word (codes "new") 7 1)).0
insert_entry-IsValid_example =
    insert_entry-IsValid S (create_basic S) (word (codes "new") 7 1) (create-IsValid S).0

insert_all-positional_example : Tracks S (insert_all S (create_positional S) tokens) true tokens
insert_all-positional_example = insert_all-positional S tokens

insert_all-basic_example : Tracks S (insert_all S (create_basic S) tokens) false tokens
insert_all-basic_example = insert_all-basic S tokens

filter_sequential_lem_example :
    (r : PostingList S) × (filter_sequential S new_list york_list 1 ≡ some r)
    × IsValid S r
    × (r.is_positional ≡ true)
    × ((d : ℕ)
        → get_entry S r d ≡ sequential 1 d (get_entry S new_list d) (get_entry S york_list d))
filter_sequential_lem_example =
    filter_sequential_lem S new_list york_list 1
      (insert_all-positional S (select (is_of (codes "new")) tokens)).valid
      (insert_all-positional S (select (is_of (codes "york")) tokens)).valid
      (insert_all-positional S (select (is_of (codes "new")) tokens)).kind
      (insert_all-positional S (select (is_of (codes "york")) tokens)).kind

remove_lem_example :
    (r : PostingList S) × (remove S york_list (9 ∷ []) ≡ some (r, length {A = ℕ} (9 ∷ [])))
    × Without S york_list (9 ∷ []) r (length {A = ℕ} (9 ∷ []))
remove_lem_example =
    remove_lem S york_list (9 ∷ [])
      (insert_all-positional S (select (is_of (codes "york")) tokens)).valid
      (ap is_some ((insert_all-positional S (select (is_of (codes "york")) tokens)).view 9), tt)
      (refl, tt)

abbrev york_term : Term S
york_term = made S (create_positional S) (codes "york") (select (is_of (codes "york")) tokens)

indexed_positions_example :
    (york_term.tf ≡ length (select (is_of (codes "york")) tokens))
    × ((d : ℕ)
        → get_entry S york_term.pl d
          ≡ summary true d (occurrences d (select (is_of (codes "york")) tokens)))
indexed_positions_example =
    indexed_positions S T tokens (codes "york") york_term
      (find-insert_tokens S T (create_positional S) tokens (codes "york"))

abbrev W : Weights
W = record { Weight = ℕ; weight = λ tf df n. tf; is_inf = λ w. false }

abbrev info : StoredDocInfo ℕ
info = record { id = 7; human_id = codes "FT-7"; term_count = 0; max_tf = 0; term_tf_idf = [] }

abbrev index : SingleTermIndex S T W
index = record {
  lexicon = T.empty;
  pl_init = create_positional S;
  document_count = 0;
  document_map = (7, info) ∷ [];
  termcounter = 0;
}

abbrev first_words : List Token
first_words = word (codes "new") 7 1 ∷ word (codes "york") 7 2 ∷ []

inserter_lem_example :
    (t' : SingleTermIndex S T W) × (inserter S T W index (first_words ++ doc_end 7 ∷ []) ≡ some t')
    × IsIndexed S T W 7 index info first_words t'
inserter_lem_example =
    inserter_lem S T W 7 index info first_words (doc_end 7) (λ tf df n. refl)
      ((refl, refl), ((refl, refl), tt)) refl refl refl

abbrev new_york : List Token
new_york = word (codes "new") 0 1 ∷ word (codes "york") 0 2 ∷ []

filter_positional_lem_example :
    (r : Option (PostingList S)) × (filter_positional S T
        (insert_tokens S T (create_positional S) T.empty tokens)
        new_york
      ≡ some r)
    × IsUsable S r
    × ((d : ℕ)
        → of_document S d r
          ≡ in_document d 1 none (
              all_of_document S d (
                retrieve_lists S T
                  (insert_tokens S T (create_positional S) T.empty tokens)
                  new_york)))
filter_positional_lem_example = filter_positional_lem S T tokens new_york
