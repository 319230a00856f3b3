-- ===== src/QueryEngine/Ranking/Results.antt =====
-- The results that the scores of documents become, and the documents that have scores.
use mathlib.Core.List.{Perm}
use irengine.Common.{
  false, ◌≢◌, ℕ, ◌==◌, ==_iff, subst, ◌≡◌, ◌↔◌, ◌⊎◌, refl, sym, ◌∙◌, inl, inr, Bool-cases,
  Option-cases, Option, some, none-some, List, [], ◌∷◌, All, Text, Dict, nat_key, lookup,
}
use irengine.FileReader.Token.{Token}
use irengine.Indexer.SkipMap.{SkipMap}
use irengine.Indexer.Entry.{Entry}
use irengine.Indexer.TermMap.{TermMap}
use irengine.Indexer.PostingList.Valid.{IsValid}
use irengine.Indexer.PostingList.{get_entry}
use irengine.Indexer.Lexicon.{Term}
use irengine.Indexer.SingleTerm.{StoredDocInfo, Weights, SingleTermIndex}
use irengine.QueryEngine.Response.{Result}
use irengine.QueryEngine.Ranking.{Float64, Runtime, append_scores}
use irengine.QueryEngine.Ranking.Scores.{document_score}

abbrev pub Listed : {A : Type 0} → A → List A → Type 0
Listed a [] = ⊥
Listed a (b ∷ bs) = (a ≡ b) ⊎ Listed a bs

All-lookup :
    {V : Type 0} (P : ℕ → Type 0) (d : ℕ) (es : List (ℕ × V)) (v : V)
    → All (λ e. P e.0) es
    → lookup d es ≡ some v
    → P d
All-lookup P d [] v a h = absurd (none-some h)
All-lookup P d ((k, w) ∷ es) v (a, b) h = elim (Bool-cases (k == d)) [
  | inl e ↦ subst P ((==_iff k d).0 e) a
  | inr e ↦ All-lookup P d es v b (rw e at h)
]

module _ (S : SkipMap Entry) (T : TermMap (Term S)) (W : Weights) where
  open S use {entries, get-entries}
  open T use {Trie, find}
  open W use {Weight}

  module _ (N : Float64 Weight) (R : Runtime Trie Weight) where
    -- Each key is there once.
    abbrev pub AreOnce : List (ℕ × Weight) → Type 0
    AreOnce [] = Unit
    AreOnce ((id, x) ∷ pairs) = All (λ p. p.0 ≢ id) pairs × AreOnce pairs

    -- No result has a higher score than one before it.
    abbrev pub IsDescending : List (Result Weight) → Type 0
    IsDescending [] = Unit
    IsDescending (r ∷ rs) = All (λ q. N.less r.score q.score ≡ false) rs × IsDescending rs

    -- `range` over a map gives each key once with its value, in some order.
    abbrev pub RangeLaw : Type 0
    RangeLaw =
        (m : Dict ℕ Weight)
        → AreOnce (R.range m)
          × ((id : ℕ) (x : Weight) → Listed (id, x) (R.range m) ↔ (lookup id m ≡ some x))

    -- `sort.Sort` orders the results by `Less`: none comes or goes, and the higher scores are in front.
    abbrev pub SortLaw : Type 0
    SortLaw = (rs : List (Result Weight)) → Perm rs (R.sort rs) × IsDescending (R.sort rs)

    abbrev pub result_of :
        (StoredDocInfo Weight → Weight → Weight) → StoredDocInfo Weight → Weight → Result Weight
    result_of final info x = record { document = info.human_id; score = final info x; info = [] }

    -- One result for each of the scored documents
    abbrev pub AreResults :
        SingleTermIndex S T W
        → (StoredDocInfo Weight → Weight → Weight)
        → List (ℕ × Weight)
        → List (Result Weight)
        → Type 0
    AreResults t final [] [] = Unit
    AreResults t final [] (r ∷ rs) = ⊥
    AreResults t final (p ∷ pairs) [] = ⊥
    AreResults t final ((id, x) ∷ pairs) (r ∷ rs) =
        ((info : StoredDocInfo Weight) × (lookup id t.document_map ≡ some info)
          × (r ≡ result_of final info x))
        × AreResults t final pairs rs

    pub append_scores_lem :
        (t : SingleTermIndex S T W) (final : StoredDocInfo Weight → Weight → Weight)
        (pairs : List (ℕ × Weight))
        → ((id : ℕ) (x : Weight)
            → Listed (id, x) pairs
            → (info : StoredDocInfo Weight) × (lookup id t.document_map ≡ some info))
        → (rs : List (Result Weight)) × (append_scores S T W N R t final pairs ≡ some rs)
          × AreResults t final pairs rs
    unfolding append_scores
    append_scores_lem t final [] known = ([], refl, tt)
    append_scores_lem t final ((id, x) ∷ pairs) known =
        let (info, here) = known id x (inl refl) in
        let (rs, run, each) = append_scores_lem t final pairs (λ i y l. known i y (inr l)) in
        (
          result_of final info x ∷ rs,
          rw (here, append_scores) (rw (run, append_scores) refl),
          ((info, here, refl), each),
        )

    -- All posting lists are valid, and their documents are stored.
    pub record IsRankable (t : SingleTermIndex S T W) : Type 0 where
      pub valid :
          (text : Text) (term : Term S) → find text t.lexicon ≡ some term → IsValid S term.pl
      pub stored :
          (text : Text) (term : Term S)
          → find text t.lexicon ≡ some term
          → All
              (λ e. (info : StoredDocInfo Weight) × (lookup e.0 t.document_map ≡ some info))
              (entries term.pl.list)

    module _ (t : SingleTermIndex S T W) (ok : IsRankable t) where
      -- A document that has a score is stored.
      pub document_score-stored :
          (partial : Token → Term S → Entry → Option Weight) (d : ℕ) (terms : List Token)
          (old : Option Weight)
          → ((y : Weight)
              → old ≡ some y
              → (info : StoredDocInfo Weight) × (lookup d t.document_map ≡ some info))
          → (x : Weight) → document_score S T W N R partial t.lexicon d terms old ≡ some x
          → (info : StoredDocInfo Weight) × (lookup d t.document_map ≡ some info)
      unfolding get_entry
      document_score-stored partial d [] old h x e = h x e
      document_score-stored partial d (q ∷ qs) old h x e =
          document_score-stored partial d qs _
            (elim (Option-cases (find q.text t.lexicon)) [
              | inl f ↦ rw f h
              | inr (term, f) ↦ rw f (elim (Option-cases (get_entry S term.pl d)) [
                | inl g ↦ rw g h
                | inr (entry, g) ↦ λ y k.
                    All-lookup
                      (λ i. (info : StoredDocInfo Weight) × (lookup i t.document_map ≡ some info)) d
                      (entries term.pl.list) entry (ok.stored q.text term f)
                      (sym (get-entries term.pl.list d) ∙ g)
              ])
            ])
            x e
