-- ===== src/Tests/Terms.antt =====
-- The terms of the lexicon of bounded memory: a token whose set is split.
use irengine.Common.{
  none-some, some-injective, ℕ, if◌then◌else◌, ◌≡◌, ◌⊎◌, refl, sym, subst, ◌∙◌, Bool, true, false,
  Option, none, some, [], ◌∷◌, arith, format_int, Text, codes, text_eq, text_eq_iff, nat_key,
  text_key, lookup, Bool-cases, inl, inr,
}
use irengine.FileReader.Token.{Token}
use irengine.Tests.{word}
use irengine.Tests.Sets.{S, empty_list, york-IsTerm}
use irengine.Indexer.Entry.{Entry, positional, serialize, add_position}
use irengine.Indexer.PostingList.Inserted.{added_to}
use irengine.Indexer.TermMap.{TermMap, association_list}
use irengine.Indexer.PostingList.{PostingList, get_entry}
use irengine.Constrained.PostingListSet.RoundTrip.{IsDumpable}
use irengine.Constrained.PostingListSet.Reload.{view}
use irengine.Constrained.Lexicon.Memory.Kept.{contents, entry_at}
use irengine.Constrained.Lexicon.Terms.{PersistentTerm, insert_token, retrieve_posting_list}
use irengine.Constrained.Lexicon.Terms.Chosen.{IsBelow}
use irengine.Constrained.Lexicon.Terms.Entries.{IsIndexed, Inserts, entry_of}
use irengine.Constrained.Lexicon.Terms.Indexed.{insert_token_lem}
use irengine.Constrained.Lexicon.Terms.Queried.{Queries, retrieve_posting_list_lem}
use irengine.Tests.Memory.{full, strict, can_create, pair, full-IsSound}

abbrev pub T : TermMap PersistentTerm
T = association_list PersistentTerm

abbrev term_of : Text → ℕ → PersistentTerm
term_of text tf = record { text = text; tf = tf; data_tag = codes "a0" }

abbrev pub trie : T.Trie
trie = (codes "york", term_of (codes "york") 3) ∷ (codes "new", term_of (codes "new") 1) ∷ []

full-entries :
    (tag x : Text) (d : ℕ) (e : Entry)
    → entry_at S full tag x d ≡ some e
    → (codes "a0" ≡ tag) × (view S pair x d ≡ some e)
full-entries tag x d e h = go (text_eq (codes "a0") tag) refl h
  where
    at_first : Bool → Option ℕ
    at_first b = if b then some 0 else none

    go :
        (b : Bool)
        → text_eq (codes "a0") tag ≡ b
        → (elim (at_first b) [
          | none ↦ none
          | some a ↦ elim (lookup a full.containers) [
            | none ↦ none
            | some c ↦ contents S empty_list full.disk c.tag c.pls x d
          ]
        ])
          ≡ some e
        → (codes "a0" ≡ tag) × (view S pair x d ≡ some e)
    go true same h = ((text_eq_iff (codes "a0") tag).0 same, h)
    go false other h = absurd (cc)

pair-terms :
    (x : Text) (d : ℕ) (e : Entry)
    → view S pair x d ≡ some e
    → (t : PersistentTerm) × (T.find x trie ≡ some t) × (t.data_tag ≡ codes "a0")
pair-terms x d e h = elim (Bool-cases (text_eq (codes "york") x)) [
  | inl york_hit ↦ (term_of (codes "york") 3, rw york_hit refl, refl)
  | inr york_miss ↦ elim (Bool-cases (text_eq (codes "new") x)) [
    | inl new_hit ↦ (term_of (codes "new") 1, rw (york_miss, new_hit) refl, refl)
    | inr new_miss ↦ absurd (no_list (lookup x pair.list_map) (rw (york_miss, new_miss) refl) h)
  ]
]
  where
    no_list :
        (o : Option (PostingList S))
        → o ≡ none
        → get_entry S (elim o [ none ↦ empty_list | some pl ↦ pl ]) d ≡ some e
        → ⊥
    no_list none g h = none-some {a = e} (unfold get_entry in h)
    no_list (some pl) g h = absurd (cc)

trie-terms :
    (x : Text) (t : PersistentTerm)
    → T.find x trie ≡ some t
    → ((codes "york" ≡ x) × (term_of (codes "york") 3 ≡ t))
      ⊎ ((codes "new" ≡ x) × (term_of (codes "new") 1 ≡ t))
trie-terms x t h = elim (Bool-cases (text_eq (codes "york") x)) [
  | inl york_hit ↦
      inl ((text_eq_iff (codes "york") x).0 york_hit, some-injective (sym (hit york_hit) ∙ h))
  | inr york_miss ↦ elim (Bool-cases (text_eq (codes "new") x)) [
    | inl new_hit ↦ inr (
      (text_eq_iff (codes "new") x).0 new_hit,
      some-injective (sym (second york_miss new_hit) ∙ h),
    )
    | inr new_miss ↦ absurd (none-some (sym (neither york_miss new_miss) ∙ h))
  ]
]
  where
    hit : text_eq (codes "york") x ≡ true → T.find x trie ≡ some (term_of (codes "york") 3)
    hit a = rw a refl

    second :
        text_eq (codes "york") x ≡ false
        → text_eq (codes "new") x ≡ true
        → T.find x trie ≡ some (term_of (codes "new") 1)
    second a b = rw (a, b) refl

    neither :
        text_eq (codes "york") x ≡ false → text_eq (codes "new") x ≡ false → T.find x trie ≡ none
    neither a b = rw (a, b) refl

pub full-IsIndexed : IsIndexed S T full trie
full-IsIndexed = record {
  held = λ x t at. held x t at;
  known = λ tag x d e h.
      let (tags, at) = full-entries tag x d e h in
      let (t, found, tagged) = pair-terms x d e at in (t, found, tagged ∙ tags);
}
  where
    held :
        (x : Text) (t : PersistentTerm)
        → T.find x trie ≡ some t
        → (t.text ≡ x) × ((d : ℕ) × (e : Entry) × (entry_at S full t.data_tag x d ≡ some e))
    held x t at = elim (trie-terms x t at) [
      | inl (text, same) ↦
          moved_to text same (refl, (7, positional 7 (2 ∷ []), unfold get_entry in refl))
      | inr (text, same) ↦
          moved_to text same (refl, (7, positional 7 (1 ∷ []), unfold get_entry in refl))
    ]
      where
        moved_to :
            {y : Text} {k : PersistentTerm}
            → y ≡ x
            → k ≡ t
            → ((k.text ≡ y) × ((d : ℕ) × (e : Entry) × (entry_at S full k.data_tag y d ≡ some e)))
            → (t.text ≡ x) × ((d : ℕ) × (e : Entry) × (entry_at S full t.data_tag x d ≡ some e))
        moved_to {y = y} p q r =
            subst
              (λ z.
                (t.text ≡ z) × ((d : ℕ) × (e : Entry) × (entry_at S full t.data_tag z d ≡ some e)))
              p
              (subst
                (λ (j : PersistentTerm).
                  (j.text ≡ y)
                  × ((d : ℕ) × (e : Entry) × (entry_at S full j.data_tag y d ≡ some e)))
                q r)

abbrev more_york : Token
more_york = word (codes "york") 9 5

pub strict-IsBelow : IsBelow strict
strict-IsBelow = record { below_95 = λ s l h. ground arith; below_75 = λ s l h. ground arith }

more_york-IsDumpable :
    IsDumpable
      (empty_list.entry_factory 0)
      (codes "york", added_to true more_york (entry_of S T full trie (codes "york") 9))
unfolding get_entry add_position serialize format_int
more_york-IsDumpable = (
  york-IsTerm,
  (
    omega arith,
    (omega arith, (omega arith, (omega arith, tt))),
    ((omega arith, (omega arith, tt)), ((omega arith, tt), (tt, tt))),
  ),
  refl,
  omega arith,
)

-- The set of the term is split for the token, evicted and read back.
insert_token_lem_example :
    Inserts S T full trie more_york
      (insert_token S strict can_create T (codes "c2") (codes "b1" ∷ []) full trie more_york)
insert_token_lem_example =
    insert_token_lem S T strict can_create (λ t. refl) strict-IsBelow full trie more_york
      (codes "c2") (codes "b1") [] full-IsSound full-IsIndexed refl refl refl more_york-IsDumpable

-- The set of the term is split, evicted and read back for its list.
retrieve_posting_list_lem_example :
    Queries S T full trie
      (codes "york")
      (retrieve_posting_list S strict can_create (codes "b1" ∷ []) full (term_of (codes "york") 3))
retrieve_posting_list_lem_example =
    retrieve_posting_list_lem S T strict can_create (λ t. refl) full trie (codes "york")
      (codes "b1") [] (term_of (codes "york") 3) full-IsSound full-IsIndexed refl refl
