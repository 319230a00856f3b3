-- ===== src/Indexer/PostingList/Remove.antt =====
-- What `Remove` takes out of a posting list.
use irengine.Common.{
  ℕ, ◌+◌, ◌-◌, ◌==◌, ==_iff, if◌then◌else◌, ◌≡◌, refl, sym, ap, subst, ◌∙◌, Bool, true, false, ◌||◌,
  none, some, List, [], ◌∷◌, arith, length, All, Bool-cases, Option-cases, inl, inr, nat_key,
}
use irengine.Indexer.Ordered.{length-remove_old, All-remove_of}
use irengine.Indexer.SkipMap.{SkipMap, is_some, get-delete}
use irengine.Indexer.Entry.{Entry}
use irengine.Indexer.PostingList.{PostingList, get_entry, entry_count, remove_all, remove}
use irengine.Indexer.PostingList.Valid.{IsEntry, IsValid}

abbrev pub contains : List ℕ → ℕ → Bool
contains [] a = false
contains (x ∷ xs) a = x == a || contains xs a

-- No id twice.
abbrev pub IsDistinct : List ℕ → Type 0
IsDistinct [] = Unit
IsDistinct (x ∷ xs) = (contains xs x ≡ false) × IsDistinct xs

module _ (S : SkipMap Entry) where
  open S use {
    Map, get, delete, entries, entries-IsOrdered, get-entries, entries-delete, delete_found,
  }

  -- What the loop has done to the map, and to the count.
  record Removed (flag : Bool) (m : Map) (n : ℕ) (ids : List ℕ) (m' : Map) (n' : ℕ) : Type 0 where
    counted : n' ≡ n + length ids
    shorter : length (entries m') + length ids ≡ length (entries m)
    held : All (IsEntry flag) (entries m) → All (IsEntry flag) (entries m')
    view : (d : ℕ) → get m' d ≡ (if contains ids d then none else get m d)

  length-delete :
      (m : Map) (k : ℕ)
      → is_some (get m k) ≡ true
      → length (entries (delete m k).0) + 1 ≡ length (entries m)
  length-delete m k h = elim (Option-cases (get m k)) [
    | inl e ↦ absurd (ground arith)
    | inr (v, e) ↦
        rw entries-delete
          (length-remove_old k v (entries m) (entries-IsOrdered m) (sym (get-entries m k) ∙ e))
  ]

  Removed-next :
      (flag : Bool) (m m' : Map) (n n' k : ℕ) (ids : List ℕ)
      → (delete m k).1 ≡ true
      → Removed flag (delete m k).0 (n + 1) ids m' n'
      → Removed flag m n (k ∷ ids) m' n'
  Removed-next flag m m' n n' k ids found r = record {
    counted = omega (arith, r.counted);
    shorter = omega (arith, r.shorter, length-delete m k (sym (delete_found m k) ∙ found));
    held = λ h. r.held (rw entries-delete (All-remove_of (IsEntry flag) k (entries m) h));
    view = λ d. ground (arith, r.view d, get-delete S m k d);
  }

  remove_all_lem :
      (flag : Bool) (m : Map) (n : ℕ) (ids : List ℕ) (m' : Map) (n' : ℕ)
      → remove_all S m n ids ≡ some (m', n')
      → Removed flag m n ids m' n'
  unfolding remove_all
  remove_all_lem flag m n [] m' n' h =
      let same : m ≡ m' = cc in
      let count : n ≡ n' = cc in
      rw (← same, ← count)
        (record { counted = omega arith; shorter = omega arith; held = λ h. h; view = λ d. refl })
  remove_all_lem flag m n (k ∷ ids) m' n' h = elim (Bool-cases (delete m k).1) [
    | inl found ↦
        Removed-next flag m m' n n' k ids found
          (remove_all_lem flag (delete m k).0 (n + 1) ids m' n' (rw found at h))
    | inr absent ↦ absurd (cc (rw absent at h))
  ]

  -- With ids that are there, each once, the loop does not panic.
  remove_all_total :
      (m : Map) (n : ℕ) (ids : List ℕ)
      → All (λ id. is_some (get m id) ≡ true) ids
      → IsDistinct ids
      → (r : Map × ℕ) × (remove_all S m n ids ≡ some r)
  unfolding remove_all
  remove_all_total m n [] a u = ((m, n), refl)
  remove_all_total m n (k ∷ ids) (p, a) (new, u) =
      let (r, e) = remove_all_total (delete m k).0 (n + 1) ids (still ids a new) u in
      (r, rw (delete_found m k ∙ p) e)
    where
      still :
          (l : List ℕ)
          → All (λ id. is_some (get m id) ≡ true) l
          → contains l k ≡ false
          → All (λ id. is_some (get (delete m k).0 id) ≡ true) l
      still [] b c = tt
      still (j ∷ l) (q, b) c = (ground (arith, get-delete S m k j), still l b (ground arith))

  -- What is left of a posting list without some documents.
  pub record Without (pl : PostingList S) (ids : List ℕ) (r : PostingList S) (n : ℕ) : Type 0 where
    pub valid : IsValid S r
    pub counted : n ≡ length ids
    pub shorter : entry_count S r + n ≡ entry_count S pl
    pub view : (d : ℕ) → get_entry S r d ≡ (if contains ids d then none else get_entry S pl d)

  Without-of :
      (pl : PostingList S) (ids : List ℕ) (m : Map) (n : ℕ)
      → IsValid S pl
      → Removed pl.is_positional pl.list 0 ids m n
      → Without pl ids (record pl { list = m; count = pl.count - n }) n
  unfolding entry_count get_entry
  Without-of pl ids m n v r = record {
    valid = record {
      counted = omega (arith, v.counted, r.shorter, r.counted);
      held = r.held v.held;
      makes = v.makes;
    };
    counted = omega (arith, r.counted);
    shorter = omega (arith, v.counted, r.shorter, r.counted);
    view = r.view;
  }

  -- `Remove` of ids that the list has, each once, removes these documents alone, and
  -- counts them.
  pub remove_lem :
      (pl : PostingList S) (ids : List ℕ)
      → IsValid S pl
      → All (λ id. is_some (get_entry S pl id) ≡ true) ids
      → IsDistinct ids
      → (r : PostingList S) × (remove S pl ids ≡ some (r, length ids))
        × Without pl ids r (length ids)
  unfolding remove get_entry
  remove_lem pl ids v a u =
      let ((m, n), e) = remove_all_total pl.list 0 ids a u in
      let r = remove_all_lem pl.is_positional pl.list 0 ids m n e in
      let c : n ≡ length ids = omega (arith, r.counted) in
      (
        record pl { list = m; count = pl.count - n },
        rw (e, remove) (ap (λ k. some (record pl { list = m; count = pl.count - n }, k)) c),
        subst (Without pl ids (record pl { list = m; count = pl.count - n })) c
            (Without-of pl ids m n v r),
      )

  absent_panics :
      (m : Map) (n : ℕ) (id : ℕ) (ids : List ℕ)
      → get m id ≡ none
      → contains ids id ≡ true
      → remove_all S m n ids ≡ none
  unfolding remove_all
  absent_panics m n id [] h c = absurd (cc)
  absent_panics m n id (k ∷ ids) h c = elim (Bool-cases (k == id)) [
    | inl same ↦
        let eq : k ≡ id = (==_iff k id).0 same in
        let gone : (delete m k).1 ≡ false = delete_found m k ∙ ap is_some (ap (get m) eq ∙ h) in
        rw gone refl
    | inr other ↦
        let ih : remove_all S (delete m k).0 (n + 1) ids ≡ none =
          absent_panics (delete m k).0 (n + 1) id ids (get-delete S m k id ∙ rw other h)
            (rw other at c) in
        ground (arith, ih)
  ]

  -- `Remove` panics if one of the ids is not in the list.
  pub remove_absent :
      (pl : PostingList S) (ids : List ℕ) (id : ℕ)
      → get_entry S pl id ≡ none
      → contains ids id ≡ true
      → remove S pl ids ≡ none
  unfolding remove get_entry
  remove_absent pl ids id h c = rw (absent_panics pl.list 0 id ids h c, remove)
