-- ===== src/Tests/Rankers.antt =====
-- The rankers on an index of one word, with natural numbers for floating-point numbers.
use mathlib.Core.List.{Perm}
use mathlib.Core.List.Perm
use irengine.Common.{
  if◌then◌else◌, ℕ, ◌+◌, ◌-◌, ◌*◌, ◌==◌, ltb, ◌≡◌, refl, false, some, List, [], ◌∷◌, All, codes,
  arith, Dict, nat_key, remove, format_int,
}
use irengine.FileReader.Token.{Token}
use irengine.Tests.{word}
use irengine.Indexer.SkipMap.{SkipMap, ordered_list}
use irengine.Indexer.TermMap.{TermMap, association_list}
use irengine.Indexer.Entry.{Entry, basic, doc_id, frequency}
use irengine.Indexer.PostingList.{PostingList, entry_count}
use irengine.Indexer.Lexicon.{Term}
use irengine.Indexer.SingleTerm.{StoredDocInfo, Weights, SingleTermIndex}
use irengine.QueryEngine.Response.{Result, new_response}
use irengine.QueryEngine.Ranking.{Float64, Runtime, new_bm25}
use irengine.QueryEngine.Ranking.Terms.{bm25_terms}

-- The pairs of a map, the first one of each key.
abbrev pairs : Dict ℕ ℕ → List (ℕ × ℕ)
pairs [] = []
pairs ((k, v) ∷ m) = (k, v) ∷ remove k (pairs m)

abbrev S : SkipMap Entry
S = ordered_list Entry

abbrev T : TermMap (Term S)
T = association_list (Term S)

abbrev W : Weights
W = record { Weight = ℕ; weight = λ tf df n. tf; is_inf = λ w. false }

abbrev numbers : Float64 ℕ
numbers = record {
  of_int = λ n. n;
  decimal = λ n k. n;
  negative = λ n. 0;
  plus = λ a b. a + b;
  minus = λ a b. a - b;
  times = λ a b. a * b;
  over = λ a b. a;
  log = λ n. n;
  sqrt = λ n. n;
  pow_two = λ n. n * n;
  less = ltb;
  is_zero = λ n. n == 0;
  to_int = λ n. n;
  format = format_int;
}

-- A result before the first one that has no higher score.
abbrev insert_result : Result ℕ → List (Result ℕ) → List (Result ℕ)
insert_result r [] = r ∷ []
insert_result r (q ∷ rs) =
    let rest = insert_result r rs in if ltb r.score q.score then q ∷ rest else r ∷ q ∷ rs

abbrev sort_results : List (Result ℕ) → List (Result ℕ)
sort_results [] = []
sort_results (r ∷ rs) = insert_result r (sort_results rs)

abbrev IsBelowAll : ℕ → List (Result ℕ) → Type 0
IsBelowAll n rs = All (λ q. ltb n q.score ≡ false) rs

abbrev AreDescending : List (Result ℕ) → Type 0
AreDescending [] = Unit
AreDescending (r ∷ rs) = IsBelowAll r.score rs × AreDescending rs

abbrev runtime : Runtime T.Trie ℕ
runtime = record { len = λ t. 1; range = pairs; sort = sort_results }

abbrev york_list : PostingList S
york_list = record {
  list = ((7, basic 7 1) ∷ (9, basic 9 1) ∷ [], ((omega arith, tt), (tt, tt)));
  count = 2;
  is_positional = false;
  entry_factory = λ d. basic d 0;
}

abbrev york : Term S
york = record { text = codes "york"; tf = 2; pl = york_list }

abbrev info : ℕ → StoredDocInfo ℕ
info d = record { id = d; human_id = format_int d; term_count = 3; max_tf = 1; term_tf_idf = [] }

abbrev index : SingleTermIndex S T W
index = record {
  lexicon = (codes "york", york) ∷ [];
  pl_init = york_list;
  document_count = 2;
  document_map = (7, info 7) ∷ (9, info 9) ∷ [];
  termcounter = 0;
}

abbrev query : List Token
query = word (codes "york") 0 1 ∷ word (codes "new") 0 2 ∷ []

york_results :
    bm25_terms S T W numbers runtime (new_bm25 numbers) query index false
    ≡ some (record {
      results = some (
          record { document = codes "7"; score = 260; info = [] }
          ∷ record { document = codes "9"; score = 260; info = [] }
          ∷ []);
      error = [];
      source = codes "DEFAULT";
    })
unfolding bm25_terms new_bm25 doc_id entry_count format_int frequency new_response
york_results = refl
