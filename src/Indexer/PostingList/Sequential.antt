-- ===== src/Indexer/PostingList/Sequential.antt =====
-- `FilterSequential` as a whole: what the new list has of each document.
use irengine.Common.{
  ℕ, ◌<◌, ◌==◌, ==_iff, if◌then◌else◌, ◌≡◌, refl, sym, ap, subst, ◌∙◌, true, Option, none, some,
  List, [], ◌∷◌, arith, All, Bool-cases, inl, inr, nat_key, lookup,
}
use irengine.Indexer.Ordered.{IsOrdered, lookup_above, All-lookup}
use irengine.Indexer.SkipMap.{SkipMap}
use irengine.Indexer.Entry.{Entry, basic, positional, doc_id, positions}
use irengine.Indexer.PostingList.{
  PostingList, get_entry, filter_entry, filter_entries, filter_sequential,
}
use irengine.Indexer.PostingList.Valid.{IsEntry, Makes, IsValid}
use irengine.Indexer.PostingList.Filter.{
  kept, or_else, sequential, select-IsSorted, in_reach, filter_positions_lem, round_kept,
}

or_else-none : (o : Option Entry) → or_else o none ≡ o
or_else-none none = refl
or_else-none (some e) = refl

key_of : (k : ℕ) (e : Entry) → IsEntry true (k, e) → doc_id e ≡ k
unfolding doc_id
key_of k (basic d n) (h, i, pos) = i
key_of k (positional d ps) (h, i, pos, s) = i

module _ (S : SkipMap Entry) where
  open S use {Map, new_custom_map, get, entries, entries-new, entries-IsOrdered, get-entries}

  pub found-IsEntry :
      (pl : PostingList S) (d : ℕ) (e : Entry)
      → IsValid S pl
      → get_entry S pl d ≡ some e
      → IsEntry pl.is_positional (d, e)
  unfolding get_entry
  found-IsEntry pl d e v h =
      All-lookup (IsEntry pl.is_positional) d e (entries pl.list) v.held
        (sym (get-entries pl.list d) ∙ h)

  -- The list that is being built is valid and has nothing of the documents to come.
  record Builds (filtered : PostingList S) (l : List (ℕ × Entry)) : Type 0 where
    valid : IsValid S filtered
    flag : filtered.is_positional ≡ true
    ahead : All (λ e. get_entry S filtered e.0 ≡ none) l

  All-ahead :
      (filtered r : PostingList S) (k : ℕ) (o : Option Entry) (l : List (ℕ × Entry))
      → ((j : ℕ) → get_entry S r j ≡ (if k == j then o else get_entry S filtered j))
      → All (λ e. k < e.0) l
      → All (λ e. get_entry S filtered e.0 ≡ none) l
      → All (λ e. get_entry S r e.0 ≡ none) l
  All-ahead filtered r k o [] view a b = tt
  All-ahead filtered r k o ((j, e) ∷ l) view (h, a) (n, b) =
      (ground (arith, view j), All-ahead filtered r k o l view a b)

  round :
      (within : ℕ) (filtered : PostingList S) (k : ℕ) (e : Entry) (o : Option Entry)
      → IsValid S filtered
      → filtered.is_positional ≡ true
      → get_entry S filtered k ≡ none
      → IsEntry true (k, e)
      → ((e' : Entry) → o ≡ some e' → IsEntry true (k, e'))
      → let r = filter_entry S within filtered e o in
        IsValid S r
        × (r.is_positional ≡ true)
        × ((j : ℕ)
            → get_entry S r j
              ≡ (if k == j then sequential within k (some e) o else get_entry S filtered j))
  unfolding filter_entry positions doc_id
  round within filtered k (basic d n) o v flag new (h, i, pos) ok = absurd (cc)
  round within filtered k (positional d ps) none v flag new h ok =
      (v, flag, λ j. ground (arith, ap (λ i. get_entry S filtered i) {x = k} {y = j}))
  round within filtered k (positional d ps) (some (basic d' n)) v flag new h ok =
      let (bad, i, pos) = ok (basic d' n) refl in absurd (cc)
  round within filtered k (positional d ps) (some (positional d' fs)) v flag new (h, i, pos, s) ok =
      let (g, i', pos', s') = ok (positional d' fs) refl in
      let made : filtered.entry_factory k ≡ positional k [] = rw flag at (v.makes k) in
      rw (i, made, filter_positions_lem within k ps fs [] s')
        (round_kept S filtered k (kept within ps fs) v flag new
          (select-IsSorted (in_reach within ps) fs s'))

  -- What the rest of the loop does to each document.
  loop_view : ℕ → PostingList S → List (ℕ × Entry) → PostingList S → ℕ → Option Entry
  loop_view within other l filtered d = elim (lookup d l) [
    | none ↦ get_entry S filtered d
    | some e ↦ or_else (sequential within d (some e) (get_entry S other d)) (get_entry S filtered d)
  ]

  next :
      (within : ℕ) (other : PostingList S) (l : List (ℕ × Entry)) (filtered : PostingList S) (k : ℕ)
      (e : Entry) (r : PostingList S) (d : ℕ)
      → All (λ e. k < e.0) l
      → get_entry S r d ≡ (
          if k == d
          then sequential within k (some e) (get_entry S other k)
          else get_entry S filtered d)
      → get_entry S filtered k ≡ none
      → loop_view within other l r d ≡ loop_view within other ((k, e) ∷ l) filtered d
  unfolding loop_view
  next within other l filtered k e r d above view new = elim (Bool-cases (k == d)) [
    | inl same ↦
        let eq : k ≡ d = (==_iff k d).0 same in
        subst
          (λ j.
            get_entry S r j ≡ sequential within k (some e) (get_entry S other k)
            → loop_view within other l r j ≡ loop_view within other ((k, e) ∷ l) filtered j)
          eq
          (λ v. ground (
            arith,
            lookup_above k l above,
            or_else-none (sequential within k (some e) (get_entry S other k)),
          ))
          (rw same at view)
    | inr differ ↦ rw (differ, loop_view) (ground arith)
  ]

  abbrev Looped : ℕ → PostingList S → List (ℕ × Entry) → PostingList S → PostingList S → Type 0
  Looped within other l filtered r =
      IsValid S r
      × (r.is_positional ≡ true)
      × ((d : ℕ) → get_entry S r d ≡ loop_view within other l filtered d)

  loop :
      (within : ℕ) (other : PostingList S) (l : List (ℕ × Entry)) (filtered : PostingList S)
      → IsValid S other
      → other.is_positional ≡ true
      → IsOrdered l
      → All (IsEntry true) l
      → IsValid S filtered
      → filtered.is_positional ≡ true
      → All (λ e. get_entry S filtered e.0 ≡ none) l
      → Looped within other l filtered (filter_entries S within other l filtered)
  unfolding filter_entries loop_view
  loop within other [] filtered vo fo o h v f a = (v, f, λ d. refl)
  loop within other ((k, e) ∷ l) filtered vo fo (above, o) (h, hs) v f (new, a) =
      let here : doc_id e ≡ k = key_of k e h in
      let (v1, f1, view1) =
        round within filtered k e (get_entry S other k) v f new h
          (λ e' p. subst (λ b. IsEntry b (k, e')) fo (found-IsEntry other k e' vo p)) in
      let (v2, f2, view2) =
        loop within other l (filter_entry S within filtered e (get_entry S other k)) vo fo o hs v1
          f1
          (All-ahead filtered (filter_entry S within filtered e (get_entry S other k)) k
            (sequential within k (some e) (get_entry S other k)) l view1 above a) in
      subst
        (λ i. Looped within other ((k, e) ∷ l) filtered (
          filter_entries S within other l (filter_entry S within filtered e (get_entry S other i))))
        (sym here)
        (
          v2,
          f2,
          λ d.
              view2 d
              ∙ next within other l filtered k e
                  (filter_entry S within filtered e (get_entry S other k)) d above (view1 d) new,
        )

  -- The list that `FilterSequential` starts from.
  abbrev start : (ℕ → Entry) → PostingList S
  start factory = record {
    list = new_custom_map;
    count = 0;
    is_positional = true;
    entry_factory = factory;
  }

  start_empty : (factory : ℕ → Entry) (d : ℕ) → get_entry S (start factory) d ≡ none
  unfolding get_entry
  start_empty factory d = get-entries new_custom_map d ∙ ap (lookup d) entries-new

  start_ahead :
      (factory : ℕ → Entry) (l : List (ℕ × Entry))
      → All (λ e. get_entry S (start factory) e.0 ≡ none) l
  start_ahead factory [] = tt
  start_ahead factory ((k, e) ∷ l) = (start_empty factory k, start_ahead factory l)

  start-IsValid :
      (factory : ℕ → Entry) → ((d : ℕ) → factory d ≡ positional d []) → IsValid S (start factory)
  start-IsValid factory h = record { counted = rw entries-new; held = rw entries-new tt; makes = h }

  whole_loop :
      (pl other : PostingList S) (within d : ℕ)
      → loop_view within other (entries pl.list) (start pl.entry_factory) d
        ≡ sequential within d (get_entry S pl d) (get_entry S other d)
  unfolding loop_view get_entry
  whole_loop pl other within d = rw (get-entries pl.list d) (go (lookup d (entries pl.list)))
    where
      go :
          (o : Option Entry)
          → elim o as (λ _. Option Entry) [
            | none ↦ get new_custom_map d
            | some e ↦
                or_else (sequential within d (some e) (get other.list d)) (get new_custom_map d)
          ]
            ≡ sequential within d o (get other.list d)
      go none = start_empty pl.entry_factory d
      go (some e) =
          rw (start_empty pl.entry_factory d)
            (or_else-none (sequential within d (some e) (get other.list d)))

  -- Between valid lists with positions `FilterSequential` returns such a list. A document stays if
  -- both lists have it and some of the filter's positions are in reach; these are what is kept.
  pub filter_sequential_lem :
      (pl other : PostingList S) (within : ℕ)
      → IsValid S pl
      → IsValid S other
      → pl.is_positional ≡ true
      → other.is_positional ≡ true
      → (r : PostingList S) × (filter_sequential S pl other within ≡ some r)
        × IsValid S r
        × (r.is_positional ≡ true)
        × ((d : ℕ) → get_entry S r d ≡ sequential within d (get_entry S pl d) (get_entry S other d))
  unfolding filter_sequential
  filter_sequential_lem pl other within v vo f fo =
      let s = start pl.entry_factory in
      let (rv, rf, view) =
        loop within other (entries pl.list) s vo fo (entries-IsOrdered pl.list)
          (subst (λ b. All (IsEntry b) (entries pl.list)) f v.held)
          (start-IsValid pl.entry_factory
            (λ d. subst (λ b. Makes b (pl.entry_factory d) d) f (v.makes d)))
          refl (start_ahead pl.entry_factory (entries pl.list)) in
      (
        filter_entries S within other (entries pl.list) s,
        rw (f, fo),
        rv,
        rf,
        λ d. view d ∙ whole_loop pl other within d,
      )
