-- ===== src/Constrained/PostingListSet/Filled.antt =====
-- Each list of a set that `Load` makes has an entry.
use irengine.Common.{
  none-some, some-injective, ℕ, ==_iff, ◌≡◌, refl, sym, subst, ◌∙◌, ◌⊎◌, inl, inr, Option, none,
  some, List, [], ◌∷◌, All, Text, nat_key, text_key, split, trim_space, Option-cases,
}
use irengine.Indexer.SkipMap.{SkipMap, get-set}
use irengine.Indexer.Entry.{Entry, doc_id}
use irengine.Indexer.PostingList.{PostingList, get_entry, insert_complete_entry}
use irengine.Constrained.PostingListSet.{
  PostingListSet, new_posting_list_set, list_or_new, sscanln, add_entry, load_line, load_lines,
  load, scan_lines,
}
use irengine.Constrained.PostingListSet.Consistent.{All-insert}

module _ (S : SkipMap Entry) where
  abbrev pub HasEntry : Text × PostingList S → Type 0
  HasEntry p = (d : ℕ) × (e : Entry) × (get_entry S p.1 d ≡ some e)

  abbrev pub IsFilled : PostingListSet S → Type 0
  IsFilled pls = All HasEntry pls.list_map

  add_entry-IsFilled :
      (pls : PostingListSet S) (t : Text) (e : Entry)
      → IsFilled pls
      → IsFilled (add_entry S pls t e)
  unfolding add_entry insert_complete_entry get_entry
  add_entry-IsFilled pls t e h =
      All-insert HasEntry t (insert_complete_entry S (list_or_new S pls t) e) pls.list_map
        (
          doc_id e,
          e,
          get-set S (list_or_new S pls t).list (doc_id e) (doc_id e) e
              ∙ rw ((==_iff (doc_id e) (doc_id e)).1 refl) refl,
        )
        h

  -- A line leaves the set as it is, or adds an entry.
  abbrev Steps : PostingListSet S → Option (PostingListSet S) → Type 0
  Steps pls o =
      (o ≡ none) ⊎ ((o ≡ some pls) ⊎ ((t : Text) × (e : Entry) × (o ≡ some (add_entry S pls t e))))

  load_line-Steps : (pls : PostingListSet S) (line : Text) → Steps pls (load_line S pls line)
  unfolding load_line
  load_line-Steps pls line = parts (split b'#' line)
    where
      scanned :
          (t : Text) (o : Option Entry)
          → Steps pls (elim o [ none ↦ none | some e ↦ some (add_entry S pls t e) ])
      scanned t none = inl refl
      scanned t (some e) = inr (inr (t, e, refl))

      named :
          (t : Text) (rest : List Text)
          → Steps pls (elim rest [
            | [] ↦ none
            | second ∷ more ↦ elim (sscanln (pls.pl_init.entry_factory 0) second) [
              | none ↦ none
              | some e ↦ some (add_entry S pls t e)
            ]
          ])
      named t [] = inl refl
      named t (second ∷ more) = scanned t (sscanln (pls.pl_init.entry_factory 0) second)

      trimmed :
          (t : Text) (rest : List Text)
          → Steps pls (elim t [
            | [] ↦ some pls
            | c ∷ term ↦ elim rest [
              | [] ↦ none
              | second ∷ more ↦ elim (sscanln (pls.pl_init.entry_factory 0) second) [
                | none ↦ none
                | some e ↦ some (add_entry S pls (c ∷ term) e)
              ]
            ]
          ])
      trimmed [] rest = inr (inl refl)
      trimmed (c ∷ term) rest = named (c ∷ term) rest

      parts :
          (l : List Text)
          → Steps pls (elim l [
            | [] ↦ none
            | first ∷ rest ↦ elim (trim_space first) [
              | [] ↦ some pls
              | c ∷ term ↦ elim rest [
                | [] ↦ none
                | second ∷ more ↦ elim (sscanln (pls.pl_init.entry_factory 0) second) [
                  | none ↦ none
                  | some e ↦ some (add_entry S pls (c ∷ term) e)
                ]
              ]
            ]
          ])
      parts [] = inl refl
      parts (first ∷ rest) = trimmed (trim_space first) rest

  line-IsFilled :
      (pls r : PostingListSet S) (line : Text)
      → IsFilled pls
      → load_line S pls line ≡ some r
      → IsFilled r
  line-IsFilled pls r line f h = elim (load_line-Steps pls line) [
    | inl fails ↦ absurd (none-some (sym fails ∙ h))
    | inr (inl same) ↦ subst IsFilled (some-injective (sym same ∙ h)) f
    | inr (inr (t, e, adds)) ↦
        subst IsFilled (some-injective (sym adds ∙ h)) (add_entry-IsFilled pls t e f)
  ]

  load_lines-IsFilled :
      (lines : List Text) (pls r : PostingListSet S)
      → IsFilled pls
      → load_lines S pls lines ≡ some r
      → IsFilled r
  unfolding load_lines
  load_lines-IsFilled [] pls r f h = subst IsFilled (some-injective h) f
  load_lines-IsFilled (line ∷ lines) pls r f h = elim (Option-cases (load_line S pls line)) [
    | inl fails ↦ absurd (none-some (rw (fails, load_lines) at h))
    | inr (mid, runs) ↦
        load_lines-IsFilled lines mid r (line-IsFilled pls mid line f runs)
          (rw (runs, load_lines) at h)
  ]

  pub load-IsFilled :
      (init : PostingList S) (text : Text) (r : PostingListSet S)
      → load S (new_posting_list_set S init) text ≡ some r
      → IsFilled r
  unfolding load new_posting_list_set
  load-IsFilled init text r h =
      load_lines-IsFilled (scan_lines text) (new_posting_list_set S init) r tt h
