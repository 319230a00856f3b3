-- ===== src/Constrained/PostingListSet/Restored.antt =====
-- A set that is read back holds what a set between two calls holds.
use irengine.Common.{
  ℕ, Bool, false, ◌+◌, ◌<◌, ◌==◌, ◌≡◌, refl, sym, ap, subst, ◌∙◌, if◌then◌else◌, Option, none, some,
  List, [], ◌∷◌, ◌++◌, arith, All, Text, text_eq, text_eq_iff, Dict, text_key, nat_key, lookup,
  insert, lookup-insert, Bool-cases, inl, inr,
}
use irengine.Indexer.Ordered.{IsOrdered, All-put_entry_of}
use irengine.Indexer.SkipMap.{SkipMap}
use irengine.Indexer.Entry.{Entry, basic, positional, doc_id}
use irengine.Indexer.PostingList.{PostingList, entry_count, get_entry, insert_complete_entry}
use irengine.Indexer.PostingList.Valid.{
  IsEntry, IsValid, insert_complete_entry-IsValid, get_entry-entries,
  get_entry-insert_complete_entry,
}
use irengine.Constrained.PostingListSet.{
  PostingListSet, new_posting_list_set, list_or_new, add_entry, load, dump, sum_lengths,
}
use irengine.Constrained.PostingListSet.RoundTrip.{
  IsDumpable, list_pairs, map_pairs, add_all, load-dump,
}
use irengine.Constrained.PostingListSet.Reload.{AreDistinct, view, view-load-dump}
use irengine.Constrained.PostingListSet.Consistent.{
  AreDistinct-insert, All-insert, All-lookup_text, sum_lengths-insert_new, sum_lengths-insert_old,
  IsListed, IsConsistent, map_pairs-IsDumpable, All-IsValid,
}

module _ (S : SkipMap Entry) where
  open S use {entries, entries-new, entries-set, entries-IsOrdered}

  -- What an initializer makes: an empty list.
  pub record IsMaker (init : PostingList S) : Type 0 where
    pub valid : IsValid S init
    pub bare : entries init.list ≡ []

  pub maker-count : (init : PostingList S) → IsMaker init → entry_count S init ≡ 0
  unfolding entry_count
  maker-count init m = m.valid.counted ∙ rw m.bare refl

  pub listed_or_new :
      (init : PostingList S) (pls : PostingListSet S) (t : Text)
      → IsMaker init
      → IsConsistent S init pls
      → IsListed S init (t, list_or_new S pls t)
  listed_or_new init pls t m c = go (lookup t pls.list_map) refl
    where
      go :
          (o : Option (PostingList S))
          → lookup t pls.list_map ≡ o
          → IsListed S init (t, elim o [ none ↦ pls.pl_init | some pl ↦ pl ])
      go none e = subst (λ i. IsListed S init (t, i)) (sym c.made) (m.valid, refl, rw m.bare tt)
      go (some pl) e = All-lookup_text (IsListed S init) t pl pls.list_map c.listed e

  insert_complete_entry-IsListed :
      (init : PostingList S) (t : Text) (pl : PostingList S) (k : ℕ) (e : Entry)
      → IsListed S init (t, pl)
      → doc_id e ≡ k
      → IsDumpable (init.entry_factory 0) (t, e)
      → IsEntry init.is_positional (k, e)
      → get_entry S pl k ≡ none
      → IsListed S init (t, insert_complete_entry S pl e)
  unfolding insert_complete_entry
  insert_complete_entry-IsListed init t pl k e (v, same, d) here line i new = (
    insert_complete_entry-IsValid S pl k e v here new (subst (λ f. IsEntry f (k, e)) (sym same) i),
    same,
    rw (here, entries-set)
        (All-put_entry_of (λ ke. IsDumpable (init.entry_factory 0) (t, ke.1)) k e (entries pl.list)
          line d),
  )

  insert_complete_entry-count :
      (pl : PostingList S) (e : Entry)
      → entry_count S (insert_complete_entry S pl e) ≡ entry_count S pl + 1
  unfolding insert_complete_entry entry_count
  insert_complete_entry-count pl e = refl

  add_entry-IsConsistent :
      (init : PostingList S) (pls : PostingListSet S) (t : Text) (k : ℕ) (e : Entry)
      → IsMaker init
      → IsConsistent S init pls
      → doc_id e ≡ k
      → IsDumpable (init.entry_factory 0) (t, e)
      → IsEntry init.is_positional (k, e)
      → view S pls t k ≡ none
      → IsConsistent S init (add_entry S pls t e)
  unfolding add_entry
  add_entry-IsConsistent init pls t k e m c here line i new =
      let pl = list_or_new S pls t in
      record {
        made = c.made;
        listed =
            All-insert (IsListed S init) t (insert_complete_entry S pl e) pls.list_map
              (insert_complete_entry-IsListed init t pl k e (listed_or_new init pls t m c) here line
                i new)
              c.listed;
        distinct = AreDistinct-insert t (insert_complete_entry S pl e) pls.list_map c.distinct;
        counted = go (lookup t pls.list_map) refl;
      }
    where
      pl' : Option (PostingList S) → PostingList S
      pl' o = insert_complete_entry S (elim o [ none ↦ pls.pl_init | some pl ↦ pl ]) e

      go :
          (o : Option (PostingList S))
          → lookup t pls.list_map ≡ o
          → pls.size + 1 ≡ sum_lengths S (insert t (pl' o) pls.list_map)
      go none h = omega (
        arith,
        c.counted,
        sum_lengths-insert_new S t (pl' none) pls.list_map h,
        insert_complete_entry-count pls.pl_init e,
        ap (entry_count S) c.made,
        maker-count init m,
      )
      go (some old) h = omega (
        arith,
        c.counted,
        sum_lengths-insert_old S t (pl' (some old)) old pls.list_map h,
        insert_complete_entry-count old e,
      )

  lookup-add_entry :
      (pls : PostingListSet S) (t x : Text) (e : Entry)
      → text_eq t x ≡ false
      → lookup x (add_entry S pls t e).list_map ≡ lookup x pls.list_map
  unfolding add_entry
  lookup-add_entry pls t x e h = lookup-insert t x _ pls.list_map ∙ rw h refl

  -- The view of the term that an entry is added to.
  view-added :
      (pls : PostingListSet S) (t : Text) (e : Entry) (d : ℕ)
      → view S (add_entry S pls t e) t d ≡ (if doc_id e == d then some e else view S pls t d)
  unfolding add_entry
  view-added pls t e d =
      ap (λ o. get_entry S (elim o [ none ↦ pls.pl_init | some pl ↦ pl ]) d)
        {y = some (insert_complete_entry S (list_or_new S pls t) e)}
        (lookup-insert t t _ pls.list_map ∙ rw ((text_eq_iff t t).1 refl) refl)
      ∙ get_entry-insert_complete_entry S (list_or_new S pls t) e d

  entry_id : (flag : Bool) (k : ℕ) (e : Entry) → IsEntry flag (k, e) → doc_id e ≡ k
  unfolding doc_id
  entry_id flag k (basic d n) (f, i, p) = i
  entry_id flag k (positional d ps) (f, i, p, o) = i

  module _ (init : PostingList S) (m : IsMaker init) where
    add_all-list :
        (pls : PostingListSet S) (t : Text) (es : List (ℕ × Entry)) (rest : List (Text × Entry))
        → IsConsistent S init pls
        → IsOrdered es
        → All (IsEntry init.is_positional) es
        → All (λ ke. IsDumpable (init.entry_factory 0) (t, ke.1)) es
        → All (λ ke. view S pls t ke.0 ≡ none) es
        → (r : PostingListSet S) × (add_all S pls (list_pairs S t es ++ rest) ≡ add_all S r rest)
          × IsConsistent S init r
          × ((x : Text) → text_eq t x ≡ false → lookup x r.list_map ≡ lookup x pls.list_map)
    unfolding add_all
    add_all-list pls t [] rest c s i d n = (pls, refl, c, λ x h. refl)
    add_all-list pls t ((k, e) ∷ es) rest c (b, s) (i, is) (d, ds) (n, ns) =
        let here = entry_id init.is_positional k e i in
        let (r, eq, c', keeps) =
          add_all-list (add_entry S pls t e) t es rest
            (add_entry-IsConsistent init pls t k e m c here d i n) s is ds (still es b ns) in
        (r, eq, c', λ x h. keeps x h ∙ lookup-add_entry pls t x e h)
      where
        still :
            (fs : List (ℕ × Entry))
            → All (λ ke. k < ke.0) fs
            → All (λ ke. view S pls t ke.0 ≡ none) fs
            → All (λ ke. view S (add_entry S pls t e) t ke.0 ≡ none) fs
        still [] b a = tt
        still ((j, f) ∷ fs) (lt, b) (a, more) = (
          view-added pls t e j ∙ rw (entry_id init.is_positional k e i) (ground arith),
          still fs b more,
        )

    add_all-map :
        (pls : PostingListSet S) (l : Dict Text (PostingList S))
        → IsConsistent S init pls
        → All (IsListed S init) l
        → AreDistinct l
        → All (λ p. lookup p.0 pls.list_map ≡ none) l
        → IsConsistent S init (add_all S pls (map_pairs S l))
    unfolding add_all
    add_all-map pls [] c h a n = c
    add_all-map pls ((t, pl) ∷ l) c ((v, same, d), h) (a, apart) (n, ns) =
        let (r, eq, c', keeps) =
          add_all-list pls t (entries pl.list) (map_pairs S l) c (entries-IsOrdered pl.list)
            (subst (λ f. All (IsEntry f) (entries pl.list)) same v.held) d
            (none_there (entries pl.list)) in
        subst (IsConsistent S init) (sym eq)
          (add_all-map r l c' h apart (still r.list_map keeps l a ns))
      where
        none_there : (es : List (ℕ × Entry)) → All (λ ke. view S pls t ke.0 ≡ none) es
        none_there [] = tt
        none_there ((k, e) ∷ es) = (
          ap (λ o. get_entry S (elim o [ none ↦ pls.pl_init | some q ↦ q ]) k) n
              ∙ ap (λ i. get_entry S i k) c.made
              ∙ get_entry-entries S init k
              ∙ rw m.bare refl,
          none_there es,
        )

        still :
            (found : Dict Text (PostingList S))
            → ((x : Text) → text_eq t x ≡ false → lookup x found ≡ lookup x pls.list_map)
            → (q : Dict Text (PostingList S)) → lookup t q ≡ none
            → All (λ p. lookup p.0 pls.list_map ≡ none) q
            → All (λ p. lookup p.0 found ≡ none) q
        still found keeps [] a b = tt
        still found keeps ((x, w) ∷ q) a (b, bs) = elim (Bool-cases (text_eq x t)) [
          | inl same ↦ absurd (cc (rw same at a))
          | inr other ↦ (
            keeps x (ground (arith, text_eq_iff t x, text_eq_iff x t)) ∙ b,
            still found keeps q (rw other at a) bs,
          )
        ]

  pub new-IsConsistent : (init : PostingList S) → IsConsistent S init (new_posting_list_set S init)
  unfolding new_posting_list_set sum_lengths
  new-IsConsistent init = record { made = refl; listed = tt; distinct = tt; counted = refl }

  -- Written and read again, a set has the same entries and is as it should be.
  pub load-dump-IsConsistent :
      (init : PostingList S) (pls : PostingListSet S)
      → IsMaker init
      → IsConsistent S init pls
      → (r : PostingListSet S) × (load S (new_posting_list_set S init) (dump S pls) ≡ some r)
        × IsConsistent S init r
        × ((x : Text) (d : ℕ) → view S r x d ≡ view S pls x d)
  unfolding new_posting_list_set
  load-dump-IsConsistent init pls m c =
      let target = new_posting_list_set S init in
      let lines = map_pairs-IsDumpable S init pls.list_map c.listed in
      let read = load-dump S pls target lines in
      let (r, reads, same) =
        view-load-dump S pls
          (subst (λ i. All (IsDumpable (i.entry_factory 0)) (map_pairs S pls.list_map)) (sym c.made)
            lines)
          (All-IsValid S init pls.list_map c.listed) c.distinct
          (ap (λ i. entries i.list) c.made ∙ m.bare) in
      let reads' : load S target (dump S pls) ≡ some r =
        ap (λ i. load S (new_posting_list_set S i) (dump S pls)) (sym c.made) ∙ reads in
      (
        r,
        reads',
        subst (λ q. IsConsistent S init q) (joined r read reads')
            (add_all-map init m target pls.list_map (new-IsConsistent init) c.listed c.distinct
              (all_new pls.list_map)),
        same,
      )
    where
      joined :
          (r : PostingListSet S) {q : PostingListSet S} {o : Option (PostingListSet S)}
          → o ≡ some q
          → o ≡ some r
          → q ≡ r
      joined r e f = cc

      all_new :
          (l : Dict Text (PostingList S))
          → All (λ p. ◌≡◌ {A = Option (PostingList S)} (lookup p.0 []) none) l
      all_new [] = tt
      all_new (p ∷ l) = (refl, all_new l)
