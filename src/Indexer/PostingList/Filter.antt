-- ===== src/Indexer/PostingList/Filter.antt =====
-- What `FilterSequential` keeps.
use irengine.Common.{
  ℕ, suc, ◌+◌, ◌≤◌, ◌<◌, ◌==◌, leb, ltb, if◌then◌else◌, ◌≡◌, refl, sym, ap, ◌∙◌, Bool, true, false,
  ◌||◌, Option, none, some, List, [], ◌∷◌, ◌++◌, append_assoc, append-nil, arith, length, All,
  IsSorted, select, leb→gt, Bool-cases, inl, inr, nat_key,
}
use irengine.Indexer.SkipMap.{SkipMap, get-set}
use irengine.Indexer.Entry.{Entry, positional, doc_id, frequency, positions, add_position}
use irengine.Indexer.Entry.Sorting.{sort_ints_of_IsSorted, IsSorted-prefix}
use irengine.Indexer.PostingList.{PostingList, filter_positions, get_entry, insert_complete_entry}
use irengine.Indexer.PostingList.Valid.{IsValid, insert_complete_entry-IsValid}

ltb-suc : (n : ℕ) → ltb 0 (suc n) ≡ true
ltb-suc n = ground arith

-- Some position of the first list is at most `within` before `f`, or anywhere behind it.
abbrev pub in_reach : ℕ → List ℕ → ℕ → Bool
in_reach within [] f = false
in_reach within (p ∷ ps) f = leb f (p + within) || in_reach within ps f

abbrev pub kept : ℕ → List ℕ → List ℕ → List ℕ
kept within ps fs = select (in_reach within ps) fs

kept-nil : (within : ℕ) (fs : List ℕ) → kept within [] fs ≡ []
kept-nil within [] = refl
kept-nil within (f ∷ fs) = kept-nil within fs

-- A position that no filter position is in reach of can go.
kept_skip :
    (within p : ℕ) (ps fs : List ℕ)
    → All (λ f. p + within < f) fs
    → kept within (p ∷ ps) fs ≡ kept within ps fs
kept_skip within p ps [] a = refl
kept_skip within p ps (f ∷ fs) (h, a) = ground (arith, kept_skip within p ps fs a)

IsSorted-suffix : (xs ys : List ℕ) → IsSorted (xs ++ ys) → IsSorted ys
IsSorted-suffix [] ys s = s
IsSorted-suffix (x ∷ xs) ys (a, s) = IsSorted-suffix xs ys s

All-lt : (i j : ℕ) (xs : List ℕ) → i < j → All (λ y. j ≤ y) xs → All (λ y. i < y) xs
All-lt i j [] h a = tt
All-lt i j (y ∷ ys) h (a, b) = (omega arith, All-lt i j ys h b)

add_last :
    (d f : ℕ) (acc fs : List ℕ)
    → IsSorted (acc ++ f ∷ fs)
    → add_position (positional d acc) f ≡ positional d (acc ++ f ∷ [])
unfolding add_position
add_last d f acc fs s =
    ap (positional d) (
      sort_ints_of_IsSorted (acc ++ f ∷ [])
        (IsSorted-prefix (acc ++ f ∷ []) fs (rw append_assoc s)))

pass_over :
    (within p f : ℕ) (ps fs : List ℕ) (e : Entry)
    → leb f (p + within) ≡ false
    → filter_positions within (p ∷ ps) (f ∷ fs) e ≡ filter_positions within ps (f ∷ fs) e
unfolding filter_positions
pass_over within p f ps fs e far = rw (far, filter_positions)

-- The two indices find what a search of the whole first list finds.
pub filter_positions_lem :
    (within d : ℕ) (ps fs acc : List ℕ)
    → IsSorted (acc ++ fs)
    → filter_positions within ps fs (positional d acc) ≡ positional d (acc ++ kept within ps fs)
unfolding filter_positions
filter_positions_lem within d [] fs acc s = rw (kept-nil within fs, append-nil)
filter_positions_lem within d (p ∷ ps) [] acc s = rw append-nil
filter_positions_lem within d (p ∷ ps) (f ∷ fs) acc s = elim (Bool-cases (leb f (p + within))) [
  | inl near ↦
      let ih = filter_positions_lem within d (p ∷ ps) fs (acc ++ f ∷ []) (rw append_assoc s) in
      rw (near, filter_positions)
        (rw (add_last d f acc fs s)
          (ih ∙ ap (positional d) (append_assoc acc (f ∷ []) (kept within (p ∷ ps) fs))))
  | inr far ↦
      let s' = IsSorted-suffix acc (f ∷ fs) s in
      let far' = leb→gt f (p + within) far in
      let skip = kept_skip within p ps (f ∷ fs) (far', All-lt (p + within) f fs far' s'.0) in
      pass_over within p f ps fs (positional d acc) far
      ∙ filter_positions_lem within d ps (f ∷ fs) acc s
      ∙ ap (λ l. positional d (acc ++ l)) (sym skip)
]

abbrev pub kept_of : ℕ → List ℕ → Option Entry
kept_of d [] = none
kept_of d (f ∷ fs) = some (positional d (f ∷ fs))

-- What is left of a document, from its entries in the list and in the filter.
abbrev pub sequential : ℕ → ℕ → Option Entry → Option Entry → Option Entry
sequential within d none o = none
sequential within d (some e) none = none
sequential within d (some e) (some e') = kept_of d (kept within (positions e) (positions e'))

abbrev pub or_else : Option Entry → Option Entry → Option Entry
or_else none o = o
or_else (some e) o = some e

All-select : (P : ℕ → Type 0) (p : ℕ → Bool) (xs : List ℕ) → All P xs → All P (select p xs)
All-select P p [] a = tt
All-select P p (x ∷ xs) (a, b) = elim (Bool-cases (p x)) [
  | inl t ↦ rw t (a, All-select P p xs b)
  | inr f ↦ rw f (All-select P p xs b)
]

pub select-IsSorted : (p : ℕ → Bool) (xs : List ℕ) → IsSorted xs → IsSorted (select p xs)
select-IsSorted p [] s = tt
select-IsSorted p (x ∷ xs) (a, s) = elim (Bool-cases (p x)) [
  | inl t ↦ rw t (All-select (λ y. x ≤ y) p xs a, select-IsSorted p xs s)
  | inr f ↦ rw f (select-IsSorted p xs s)
]

module _ (S : SkipMap Entry) where
  open S use {
    Map, new_custom_map, get, set, entries, entries-new, entries-IsOrdered, get-entries,
    entries-set,
  }

  -- The round adds what is kept of a document, if anything is.
  pub round_kept :
      (filtered : PostingList S) (d : ℕ) (fs : List ℕ)
      → IsValid S filtered
      → filtered.is_positional ≡ true
      → get_entry S filtered d ≡ none
      → IsSorted fs
      → let e = positional d fs in
        let r = if ltb 0 (frequency e) then insert_complete_entry S filtered e else filtered in
        IsValid S r
        × (r.is_positional ≡ true)
        × ((j : ℕ) → get_entry S r j ≡ (if d == j then kept_of d fs else get_entry S filtered j))
  unfolding frequency
  round_kept filtered d [] v flag new s =
      (v, flag, λ j. ground (arith, ap (λ k. get_entry S filtered k) {x = d} {y = j}))
  round_kept filtered d (f ∷ fs) v flag new s = rw (ltb-suc (length fs)) (
    insert_complete_entry-IsValid S filtered d (positional d (f ∷ fs)) v (unfold doc_id in refl) new
        (flag, refl, omega arith, s),
    unfold insert_complete_entry in flag,
    λ j.
        unfold insert_complete_entry get_entry doc_id in
        get-set S filtered.list d j (positional d (f ∷ fs)),
  )
