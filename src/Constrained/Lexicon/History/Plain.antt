-- ===== src/Constrained/Lexicon/History/Plain.antt =====
-- The lexicon that keeps its lists in memory, `TrieLexicon`, and what an inserted token changes of it.
use irengine.Common.{
  ℕ, ◌+◌, ◌==◌, if◌then◌else◌, ◌&&◌, ◌≡◌, refl, sym, ap, subst, ◌∙◌, inl, inr, Bool, true, false,
  Option, none, some, List, [], ◌∷◌, ◌++◌, arith, length-append, Text, text_eq, text_eq_iff,
  nat_key, lookup, Bool-cases, Option-cases,
}
use irengine.FileReader.Token.{Token, null_token, type_eq}
use irengine.Indexer.SkipMap.{SkipMap}
use irengine.Indexer.Ordered.{IsOrdered, put_entry, lookup_above, All_mono}
use irengine.Indexer.Entry.{Entry, basic, positional, frequency, add_position}
use irengine.Indexer.Entry.Sorting.{length-sort_ints}
use irengine.Indexer.TermMap.{TermMap}
use irengine.Indexer.PostingList.{PostingList, get_entry, insert_entry}
use irengine.Indexer.PostingList.Valid.{IsValid, insert_entry-IsValid, get_entry-entries}
use irengine.Indexer.PostingList.Inserted.{added_to, insert_entry_parts}
use irengine.Indexer.Lexicon.{Term, register, new_term_from_token, insert_token}
use irengine.Indexer.Lexicon.Terms.{add_token, insert_token_lem}
use irengine.Constrained.PostingListSet.Restored.{IsMaker}
use irengine.Constrained.Lexicon.Disk.{sum_frequencies}

-- A new entry counts with its frequency, and one that takes the place of another with what it has more.
sum-put_entry_new :
    (k : ℕ) (e : Entry) (m : List (ℕ × Entry))
    → lookup k m ≡ none
    → sum_frequencies (put_entry k e m) ≡ frequency e + sum_frequencies m
unfolding put_entry
sum-put_entry_new k e [] h = refl
sum-put_entry_new k e ((j, u) ∷ m) h = ground (arith, sum-put_entry_new k e m)

sum-put_entry_old :
    (k : ℕ) (e w : Entry) (m : List (ℕ × Entry))
    → IsOrdered m
    → lookup k m ≡ some w
    → frequency e ≡ frequency w + 1
    → sum_frequencies (put_entry k e m) ≡ sum_frequencies m + 1
unfolding put_entry
sum-put_entry_old k e w [] o h f = ground arith
sum-put_entry_old k e w ((j, u) ∷ m) (a, o) h f =
    ground (arith, All_mono k j m, lookup_above k m, sum-put_entry_old k e w m o)

frequency-added : (e : Entry) (p : ℕ) → frequency (add_position e p) ≡ frequency e + 1
unfolding frequency add_position
frequency-added (basic d n) p = refl
frequency-added (positional d ps) p =
    omega (arith, length-sort_ints (ps ++ p ∷ []), length-append ps (p ∷ []))

frequency-added_to : (flag : Bool) (t : Token) → frequency (added_to flag t none) ≡ 1
unfolding frequency
frequency-added_to true t = frequency-added (positional t.doc_id []) t.position
frequency-added_to false t = frequency-added (basic t.doc_id 0) t.position

module _ (S : SkipMap Entry) where
  open S use {entries, entries-IsOrdered}

  sum-insert_entry :
      (pl : PostingList S) (t : Token)
      → IsValid S pl
      → sum_frequencies (entries (insert_entry S pl t).0.list)
        ≡ sum_frequencies (entries pl.list) + 1
  sum-insert_entry pl t v =
      ap sum_frequencies (insert_entry_parts S pl t v).0
      ∙ elim (Option-cases (get_entry S pl t.doc_id)) [
        | inl absent ↦
            ap
              (λ o.
                sum_frequencies
                  (put_entry t.doc_id (added_to pl.is_positional t o) (entries pl.list)))
              absent
            ∙ sum-put_entry_new t.doc_id (added_to pl.is_positional t none) (entries pl.list)
                (sym (get_entry-entries S pl t.doc_id) ∙ absent)
            ∙ omega (arith, frequency-added_to pl.is_positional t)
        | inr (e, at) ↦
            ap
              (λ o.
                sum_frequencies
                  (put_entry t.doc_id (added_to pl.is_positional t o) (entries pl.list)))
              at
            ∙ sum-put_entry_old t.doc_id (add_position e t.position) e (entries pl.list)
                (entries-IsOrdered pl.list) (sym (get_entry-entries S pl t.doc_id) ∙ at)
                (frequency-added e t.position)
      ]

  module _ (P : TermMap (Term S)) (create : PostingList S) (maker : IsMaker S create) where
    open P use {Trie, empty, find, find-empty, find-insert_key}

    abbrev pub list_of : Option (Term S) → PostingList S
    list_of none = create
    list_of (some t) = t.pl

    abbrev pub tf_or_zero : Option (Term S) → ℕ
    tf_or_zero none = 0
    tf_or_zero (some t) = t.tf

    -- What the plain lexicon has of a text: how often it has been counted, and its entries.
    abbrev pub plain_tf : Trie → Text → ℕ
    plain_tf lex x = tf_or_zero (find x lex)

    abbrev pub plain_entry : Trie → Text → ℕ → Option Entry
    plain_entry lex x d = get_entry S (list_of (find x lex)) d

    -- A term has a valid list of the lexicon's kind, and counts the occurrences in it.
    abbrev pub IsPlain : Option (Term S) → Type 0
    IsPlain o =
        IsValid S (list_of o)
        × ((list_of o).is_positional ≡ create.is_positional)
        × (tf_or_zero o ≡ sum_frequencies (entries (list_of o).list))

    pub none-IsPlain : IsPlain none
    none-IsPlain = (maker.valid, refl, sym (ap sum_frequencies maker.bare))

    add_token-parts :
        (t : Token) (o : Option (Term S))
        → ((add_token S create t o).tf ≡ tf_or_zero o + 1)
          × ((add_token S create t o).pl ≡ (insert_entry S (list_of o) t).0)
    unfolding register new_term_from_token
    add_token-parts t none = (refl, refl)
    add_token-parts t (some term) = (refl, refl)

    add_token-IsPlain :
        (t : Token) (o : Option (Term S)) → IsPlain o → IsPlain (some (add_token S create t o))
    add_token-IsPlain t o (v, kind, sums) =
        let (tf, pl) = add_token-parts t o in
        subst
          (λ (l : PostingList S).
            IsValid S l
            × (l.is_positional ≡ create.is_positional)
            × ((add_token S create t o).tf ≡ sum_frequencies (entries l.list)))
          (sym pl)
          (
            insert_entry-IsValid S (list_of o) t v,
            (insert_entry_parts S (list_of o) t v).1 ∙ kind,
            tf ∙ ap (λ n. n + 1) sums ∙ sym (sum-insert_entry (list_of o) t v),
          )

    -- What an inserted token changes of the plain lexicon.
    abbrev pub Inserted : Trie → Token → Trie → Type 0
    Inserted lex token lex' =
        ((x : Text) → IsPlain (find x lex'))
        × ((x : Text)
            → plain_tf lex' x
              ≡ (if text_eq token.text x then plain_tf lex x + 1 else plain_tf lex x))
        × ((x : Text) (d : ℕ)
            → plain_entry lex' x d ≡ (
                if text_eq token.text x && token.doc_id == d
                then some
                    (added_to create.is_positional token (plain_entry lex token.text token.doc_id))
                else plain_entry lex x d))

    pub insert_token-Inserted :
        (lex : Trie) (token : Token)
        → type_eq token.type null_token ≡ false
        → ((x : Text) → IsPlain (find x lex))
        → Inserted lex token (insert_token S P create lex token).0
    insert_token-Inserted lex token word plain =
        rw (insert_token_lem S P create lex token word)
          (λ x. valid x, λ x. counts x, λ x d. entry x d)
      where
        o : Option (Term S)
        o = find token.text lex

        added : Term S
        added = add_token S create token o

        found :
            (x : Text)
            → find x (P.insert_key token.text added lex)
              ≡ (if text_eq token.text x then some added else find x lex)
        found x = find-insert_key token.text x added lex

        valid : (x : Text) → IsPlain (find x (P.insert_key token.text added lex))
        valid x = subst IsPlain (sym (found x)) (elim (Bool-cases (text_eq token.text x)) [
          | inl same ↦ rw same (add_token-IsPlain token o (plain token.text))
          | inr other ↦ rw other (plain x)
        ])

        counts :
            (x : Text)
            → plain_tf (P.insert_key token.text added lex) x
              ≡ (if text_eq token.text x then plain_tf lex x + 1 else plain_tf lex x)
        counts x = ap tf_or_zero (found x) ∙ elim (Bool-cases (text_eq token.text x)) [
          | inl same ↦ rw same (
              (add_token-parts token o).0
              ∙ ap (λ y. tf_or_zero (find y lex) + 1) ((text_eq_iff token.text x).0 same))
          | inr other ↦ rw other refl
        ]

        own :
            (x : Text) (d : ℕ)
            → token.text ≡ x
            → get_entry S added.pl d ≡ (
                if token.doc_id == d
                then some
                    (added_to create.is_positional token (plain_entry lex token.text token.doc_id))
                else plain_entry lex x d)
        own x d same =
            let (v, kind, sums) = plain token.text in
            let (listed, kinds, size, entries') = insert_entry_parts S (list_of o) token v in
            ap (λ l. get_entry S l d) (add_token-parts token o).1
            ∙ entries' d
            ∙ ap
                (λ k.
                  if token.doc_id == d
                  then some (added_to k token (plain_entry lex token.text token.doc_id))
                  else plain_entry lex token.text d)
                kind
            ∙ ap
                (λ y.
                  if token.doc_id == d
                  then some (
                      added_to create.is_positional token (plain_entry lex token.text token.doc_id))
                  else plain_entry lex y d)
                same

        entry :
            (x : Text) (d : ℕ)
            → plain_entry (P.insert_key token.text added lex) x d ≡ (
                if text_eq token.text x && token.doc_id == d
                then some
                    (added_to create.is_positional token (plain_entry lex token.text token.doc_id))
                else plain_entry lex x d)
        entry x d =
            ap (λ q. get_entry S (list_of q) d) (found x)
            ∙ elim (Bool-cases (text_eq token.text x)) [
              | inr other ↦ rw other refl
              | inl same ↦ rw same (own x d ((text_eq_iff token.text x).0 same))
            ]
