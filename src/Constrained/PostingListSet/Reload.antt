-- ===== src/Constrained/PostingListSet/Reload.antt =====
-- A set that is written and read again.
use irengine.Common.{
  ℕ, ◌==◌, ==_iff, ◌≡◌, ◌<◌, refl, sym, ap, subst, ◌∙◌, if◌then◌else◌, ◌&&◌, Bool, Option, none,
  some, List, [], ◌∷◌, ◌++◌, All, Text, text_eq, text_eq_iff, Dict, nat_key, text_key, lookup,
  lookup-insert, Bool-cases, inl, inr,
}
use irengine.Indexer.Ordered.{IsOrdered, lookup_above}
use irengine.Indexer.SkipMap.{SkipMap}
use irengine.Indexer.Entry.{Entry, basic, positional, doc_id}
use irengine.Indexer.PostingList.{PostingList, get_entry}
use irengine.Indexer.PostingList.Valid.{
  IsEntry, IsValid, get_entry-insert_complete_entry, get_entry-entries,
}
use irengine.Constrained.PostingListSet.{
  PostingListSet, new_posting_list_set, list_or_new, add_entry, load, dump,
}
use irengine.Constrained.PostingListSet.RoundTrip.{
  IsDumpable, list_pairs, map_pairs, add_all, load-dump,
}

-- The last of the entries of a term and a document.
abbrev found : Text → ℕ → List (Text × Entry) → Option Entry → Option Entry
found x d [] o = o
found x d ((t, e) ∷ ps) o = found x d ps (if text_eq t x && doc_id e == d then some e else o)

found-append :
    (x : Text) (d : ℕ) (ps qs : List (Text × Entry)) (o : Option Entry)
    → found x d (ps ++ qs) o ≡ found x d qs (found x d ps o)
found-append x d [] qs o = refl
found-append x d ((t, e) ∷ ps) qs o = found-append x d ps qs _

-- No term twice.
abbrev pub AreDistinct : {V : Type 0} → Dict Text V → Type 0
AreDistinct [] = Unit
AreDistinct ((t, v) ∷ m) = (lookup t m ≡ none) × AreDistinct m

or_else : Option Entry → Option Entry → Option Entry
or_else none o = o
or_else (some e) o = some e

or_else-none : (o : Option Entry) → or_else o none ≡ o
unfolding or_else
or_else-none none = refl
or_else-none (some e) = refl

module _ (S : SkipMap Entry) where
  open S use {entries, get-entries, entries-IsOrdered}

  -- What a set has of a term and a document.
  abbrev pub view : PostingListSet S → Text → ℕ → Option Entry
  view pls x d = get_entry S (list_or_new S pls x) d

  or_new : PostingList S → Option (PostingList S) → PostingList S
  or_new init o = elim o [ none ↦ init | some pl ↦ pl ]

  view-add_entry :
      (pls : PostingListSet S) (t : Text) (e : Entry) (x : Text) (d : ℕ)
      → view (add_entry S pls t e) x d
        ≡ (if text_eq t x && doc_id e == d then some e else view pls x d)
  unfolding add_entry or_new
  view-add_entry pls t e x d =
      ap (λ o. get_entry S (or_new pls.pl_init o) d) (lookup-insert t x _ pls.list_map)
      ∙ elim (Bool-cases (text_eq t x)) [
        | inl same ↦ rw same (
            get_entry-insert_complete_entry S (list_or_new S pls t) e d
            ∙ ap (λ y. if doc_id e == d then some e else view pls y d) ((text_eq_iff t x).0 same))
        | inr other ↦ rw other refl
      ]

  view-add_all :
      (pls : PostingListSet S) (ps : List (Text × Entry)) (x : Text) (d : ℕ)
      → view (add_all S pls ps) x d ≡ found x d ps (view pls x d)
  unfolding add_all
  view-add_all pls [] x d = refl
  view-add_all pls ((t, e) ∷ ps) x d =
      view-add_all (add_entry S pls t e) ps x d ∙ ap (found x d ps) (view-add_entry pls t e x d)

  entry_id : (flag : Bool) (k : ℕ) (e : Entry) → IsEntry flag (k, e) → doc_id e ≡ k
  unfolding doc_id
  entry_id flag k (basic d n) (f, i, p) = i
  entry_id flag k (positional d ps) (f, i, p, o) = i

  found-list_pairs :
      (flag : Bool) (x : Text) (d : ℕ) (t : Text) (es : List (ℕ × Entry)) (o : Option Entry)
      → IsOrdered es
      → All (IsEntry flag) es
      → found x d (list_pairs S t es) o ≡ (if text_eq t x then or_else (lookup d es) o else o)
  unfolding or_else
  found-list_pairs flag x d t [] o s h = elim (Bool-cases (text_eq t x)) [
    | inl same ↦ rw same refl
    | inr other ↦ rw other refl
  ]
  found-list_pairs flag x d t ((k, e) ∷ es) o (b, s) (i, h) =
      found-list_pairs flag x d t es _ s h
      ∙ rw (entry_id flag k e i) (elim (Bool-cases (text_eq t x)) [
        | inr other ↦ rw other refl
        | inl same ↦ rw same (elim (Bool-cases (k == d)) [
          | inl hit ↦ rw hit (
              ap (λ l. or_else l (some e))
                (lookup_above d es (subst (λ j. All (λ p. j < p.0) es) ((==_iff k d).0 hit) b)))
          | inr miss ↦ rw miss refl
        ])
      ])

  -- A term that a map does not have leaves no entry.
  found-map_pairs-none :
      (x : Text) (d : ℕ) (m : Dict Text (PostingList S)) (o : Option Entry)
      → All (λ p. IsValid S p.1) m
      → lookup x m ≡ none
      → found x d (map_pairs S m) o ≡ o
  found-map_pairs-none x d [] o v h = refl
  found-map_pairs-none x d ((t, pl) ∷ m) o (v, vs) h = elim (Bool-cases (text_eq t x)) [
    | inl same ↦ absurd (cc (rw same at h))
    | inr other ↦
        found-append x d (list_pairs S t (entries pl.list)) (map_pairs S m) o
        ∙ ap (found x d (map_pairs S m)) (
            found-list_pairs pl.is_positional x d t (entries pl.list) o (entries-IsOrdered pl.list)
              v.held
            ∙ rw other refl)
        ∙ found-map_pairs-none x d m o vs (rw other at h)
  ]

  found-map_pairs :
      (x : Text) (d : ℕ) (m : Dict Text (PostingList S)) (init : PostingList S)
      → All (λ p. IsValid S p.1) m
      → AreDistinct m
      → get_entry S init d ≡ none
      → found x d (map_pairs S m) none ≡ get_entry S (or_new init (lookup x m)) d
  unfolding or_new
  found-map_pairs x d [] init v a e = sym e
  found-map_pairs x d ((t, pl) ∷ m) init (v, vs) (a, distinct) e =
      found-append x d (list_pairs S t (entries pl.list)) (map_pairs S m) none
      ∙ ap (found x d (map_pairs S m)) (
          found-list_pairs pl.is_positional x d t (entries pl.list) none (entries-IsOrdered pl.list)
            v.held)
      ∙ elim (Bool-cases (text_eq t x)) [
        | inl same ↦ rw same (
            found-map_pairs-none x d m _ vs
              (ap (λ y. lookup y m) (sym ((text_eq_iff t x).0 same)) ∙ a)
            ∙ or_else-none (lookup d (entries pl.list))
            ∙ sym (get_entry-entries S pl d))
        | inr other ↦ rw other (found-map_pairs x d m init vs distinct e)
      ]

  -- A set of valid lists under distinct terms that lines can hold, written and read into a new set with the
  -- same initializer: reading does not panic, and of each term and document the new set has the entry
  -- that the old one has.
  pub view-load-dump :
      (pls : PostingListSet S)
      → All (IsDumpable (pls.pl_init.entry_factory 0)) (map_pairs S pls.list_map)
      → All (λ p. IsValid S p.1) pls.list_map
      → AreDistinct pls.list_map
      → entries pls.pl_init.list ≡ []
      → (r : PostingListSet S) × (load S (new_posting_list_set S pls.pl_init) (dump S pls) ≡ some r)
        × ((x : Text) (d : ℕ) → view r x d ≡ view pls x d)
  unfolding new_posting_list_set or_new
  view-load-dump pls h v a e =
      let target = new_posting_list_set S pls.pl_init in
      let none_there : (d : ℕ) → get_entry S pls.pl_init d ≡ none =
        λ d. get_entry-entries S pls.pl_init d ∙ ap (lookup d) e in
      (
        add_all S target (map_pairs S pls.list_map),
        load-dump S pls target h,
        λ x d.
            view-add_all target (map_pairs S pls.list_map) x d
            ∙ ap (found x d (map_pairs S pls.list_map)) (none_there d)
            ∙ found-map_pairs x d pls.list_map pls.pl_init v a (none_there d),
      )
