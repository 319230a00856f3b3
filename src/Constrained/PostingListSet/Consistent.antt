-- ===== src/Constrained/PostingListSet/Consistent.antt =====
-- What holds of a set between two calls, and that a change of one list keeps it.
use irengine.Common.{
  ℕ, ◌+◌, ◌≡◌, refl, sym, ap, subst, ◌∙◌, none, some, List, [], ◌∷◌, arith, All, All-append, Text,
  text_eq, text_eq_iff, Dict, text_key, lookup, insert, remove, lookup-insert, lookup-remove,
  Bool-cases, inl, inr,
}
use irengine.Indexer.SkipMap.{SkipMap}
use irengine.Indexer.Entry.{Entry}
use irengine.Indexer.PostingList.{PostingList, entry_count}
use irengine.Indexer.PostingList.Valid.{IsValid}
use irengine.Constrained.PostingListSet.{PostingListSet, sum_lengths}
use irengine.Constrained.PostingListSet.RoundTrip.{IsDumpable, list_pairs, map_pairs}
use irengine.Constrained.PostingListSet.Reload.{AreDistinct}

module _ {V : Type 0} where
  pub AreDistinct-insert :
      (t : Text) (v : V) (m : Dict Text V) → AreDistinct m → AreDistinct (insert t v m)
  AreDistinct-insert t v [] a = (refl, tt)
  AreDistinct-insert t v ((x, w) ∷ m) (a, b) = elim (Bool-cases (text_eq x t)) [
    | inl same ↦ rw same (ap (λ y. lookup y m) (sym ((text_eq_iff x t).0 same)) ∙ a, b)
    | inr other ↦ rw other (
      ground (arith, lookup-insert t x v m, text_eq_iff t x, text_eq_iff x t),
      AreDistinct-insert t v m b,
    )
  ]

  pub AreDistinct-remove : (t : Text) (m : Dict Text V) → AreDistinct m → AreDistinct (remove t m)
  AreDistinct-remove t [] a = tt
  AreDistinct-remove t ((x, w) ∷ m) (a, b) = elim (Bool-cases (text_eq x t)) [
    | inl same ↦ rw same (AreDistinct-remove t m b)
    | inr other ↦ rw other (ground (arith, lookup-remove t x m), AreDistinct-remove t m b)
  ]

  remove_absent : (t : Text) (m : Dict Text V) → lookup t m ≡ none → remove t m ≡ m
  remove_absent t [] h = refl
  remove_absent t ((x, w) ∷ m) h = ground (arith, remove_absent t m)

  module _ (P : Text × V → Type 0) where
    pub All-insert :
        (t : Text) (v : V) (m : Dict Text V) → P (t, v) → All P m → All P (insert t v m)
    All-insert t v [] p a = (p, tt)
    All-insert t v ((x, w) ∷ m) p (a, b) = elim (Bool-cases (text_eq x t)) [
      | inl same ↦ rw same (p, b)
      | inr other ↦ rw other (a, All-insert t v m p b)
    ]

    pub All-remove : (t : Text) (m : Dict Text V) → All P m → All P (remove t m)
    All-remove t [] a = tt
    All-remove t ((x, w) ∷ m) (a, b) = elim (Bool-cases (text_eq x t)) [
      | inl same ↦ rw same (All-remove t m b)
      | inr other ↦ rw other (a, All-remove t m b)
    ]

    pub All-lookup_text :
        (t : Text) (v : V) (m : Dict Text V) → All P m → lookup t m ≡ some v → P (t, v)
    All-lookup_text t v [] a h = absurd (cc)
    All-lookup_text t v ((x, w) ∷ m) (a, b) h = elim (Bool-cases (text_eq x t)) [
      | inl same ↦
          let vals : w ≡ v = ground arith in
          subst (λ y. P (y, v)) ((text_eq_iff x t).0 same) (subst (λ u. P (x, u)) vals a)
      | inr other ↦ All-lookup_text t v m b (ground arith)
    ]

module _ (S : SkipMap Entry) where
  open S use {entries}

  pub sum_lengths-insert_new :
      (t : Text) (pl : PostingList S) (m : Dict Text (PostingList S))
      → lookup t m ≡ none
      → sum_lengths S (insert t pl m) ≡ sum_lengths S m + entry_count S pl
  unfolding sum_lengths
  sum_lengths-insert_new t pl [] h = omega arith
  sum_lengths-insert_new t pl ((x, q) ∷ m) h = ground (arith, sum_lengths-insert_new t pl m)

  pub sum_lengths-insert_old :
      (t : Text) (pl old : PostingList S) (m : Dict Text (PostingList S))
      → lookup t m ≡ some old
      → sum_lengths S (insert t pl m) + entry_count S old ≡ sum_lengths S m + entry_count S pl
  unfolding sum_lengths
  sum_lengths-insert_old t pl old [] h = ground arith
  sum_lengths-insert_old t pl old ((x, q) ∷ m) h = elim (Bool-cases (text_eq x t)) [
    | inl same ↦ let e : q ≡ old = ground arith in rw (same, e) (omega arith)
    | inr other ↦ rw other (omega (arith, sum_lengths-insert_old t pl old m (ground arith)))
  ]

  pub sum_lengths-remove :
      (t : Text) (pl : PostingList S) (m : Dict Text (PostingList S))
      → AreDistinct m
      → lookup t m ≡ some pl
      → sum_lengths S (remove t m) + entry_count S pl ≡ sum_lengths S m
  unfolding sum_lengths
  sum_lengths-remove t pl [] a h = ground arith
  sum_lengths-remove t pl ((x, q) ∷ m) (a, b) h = elim (Bool-cases (text_eq x t)) [
    | inl same ↦
        let e : q ≡ pl = ground arith in
        let gone : remove t m ≡ m =
          remove_absent t m (ap (λ y. lookup y m) (sym ((text_eq_iff x t).0 same)) ∙ a) in
        rw (same, gone, e) (omega arith)
    | inr other ↦ rw other (omega (arith, sum_lengths-remove t pl m b (ground arith)))
  ]

  -- A list under its term: valid, of the initializer's kind, and every entry fits in a line.
  abbrev pub IsListed : PostingList S → Text × PostingList S → Type 0
  IsListed init (t, pl) =
      IsValid S pl
      × (pl.is_positional ≡ init.is_positional)
      × All (λ ke. IsDumpable (init.entry_factory 0) (t, ke.1)) (entries pl.list)

  pub record IsConsistent (init : PostingList S) (pls : PostingListSet S) : Type 0 where
    pub made : pls.pl_init ≡ init
    pub listed : All (IsListed init) pls.list_map
    pub distinct : AreDistinct pls.list_map
    pub counted : pls.size ≡ sum_lengths S pls.list_map

  list_pairs-IsDumpable :
      (made : Entry) (t : Text) (es : List (ℕ × Entry))
      → All (λ ke. IsDumpable made (t, ke.1)) es
      → All (IsDumpable made) (list_pairs S t es)
  list_pairs-IsDumpable made t [] a = tt
  list_pairs-IsDumpable made t ((k, e) ∷ es) (a, b) = (a, list_pairs-IsDumpable made t es b)

  pub map_pairs-IsDumpable :
      (init : PostingList S) (m : Dict Text (PostingList S))
      → All (IsListed init) m
      → All (IsDumpable (init.entry_factory 0)) (map_pairs S m)
  map_pairs-IsDumpable init [] a = tt
  map_pairs-IsDumpable init ((t, pl) ∷ m) ((v, k, d), b) =
      All-append (IsDumpable (init.entry_factory 0)) (list_pairs S t (entries pl.list))
        (map_pairs S m) (list_pairs-IsDumpable (init.entry_factory 0) t (entries pl.list) d)
        (map_pairs-IsDumpable init m b)

  pub All-IsValid :
      (init : PostingList S) (m : Dict Text (PostingList S))
      → All (IsListed init) m
      → All (λ p. IsValid S p.1) m
  All-IsValid init [] a = tt
  All-IsValid init ((t, pl) ∷ m) ((v, k, d), b) = (v, All-IsValid init m b)
