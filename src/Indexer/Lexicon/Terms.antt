-- ===== src/Indexer/Lexicon/Terms.antt =====
-- The lexicon against the tokens that were inserted into it.
use irengine.Common.{
  ℕ, ◌≡◌, refl, sym, ap, subst, ◌∙◌, Bool, true, false, not, ◌&&◌, Option, none, some, List, [],
  ◌∷◌, ◌++◌, append_assoc, append-nil, length, length-append, select, arith, Text, text_eq,
  text_eq_iff, Bool-cases, Option-cases, inl, inr,
}
use irengine.FileReader.Token.{Token, null_token, type_eq}
use irengine.Indexer.SkipMap.{SkipMap}
use irengine.Indexer.Entry.{Entry}
use irengine.Indexer.TermMap.{TermMap}
use irengine.Indexer.PostingList.{PostingList, create_positional, get_entry, insert_entry}
use irengine.Indexer.PostingList.History.{insert_all, insert_all-positional, occurrences, summary}
use irengine.Indexer.Lexicon.{Term, register, new_term_from_token, insert_token}

-- The tokens of a term.
abbrev pub is_of : Text → Token → Bool
is_of x t = not (type_eq t.type null_token) && text_eq t.text x

select-append :
    (p : Token → Bool) (xs ys : List Token) → select p (xs ++ ys) ≡ select p xs ++ select p ys
select-append p [] ys = refl
select-append p (x ∷ xs) ys = ground (arith, select-append p xs ys)

select_kept :
    (p : Token → Bool) (h : List Token) (t : Token)
    → p t ≡ true
    → select p (h ++ t ∷ []) ≡ select p h ++ t ∷ []
select_kept p h t e = select-append p h (t ∷ []) ∙ rw e refl

select_left :
    (p : Token → Bool) (h : List Token) (t : Token)
    → p t ≡ false
    → select p (h ++ t ∷ []) ≡ select p h
select_left p h t e = select-append p h (t ∷ []) ∙ rw e (append-nil (select p h))

module _ (S : SkipMap Entry) where
  insert_all-append :
      (pl : PostingList S) (ts us : List Token)
      → insert_all S pl (ts ++ us) ≡ insert_all S (insert_all S pl ts) us
  unfolding insert_all
  insert_all-append pl [] us = refl
  insert_all-append pl (t ∷ ts) us = insert_all-append (insert_entry S pl t).0 ts us

  abbrev pub made : PostingList S → Text → List Token → Term S
  made create x ts = record { text = x; tf = length ts; pl = insert_all S create ts }

  -- The term of a text with these tokens.
  abbrev pub term_of : PostingList S → Text → List Token → Option (Term S)
  term_of create x [] = none
  term_of create x (t ∷ ts) = some (made create x (t ∷ ts))

  -- One more token.
  abbrev pub add_token : PostingList S → Token → Option (Term S) → Term S
  add_token create t none = new_term_from_token S t create
  add_token create t (some term) = register S term t

  add_token-term_of :
      (create : PostingList S) (t : Token) (ts : List Token)
      → some (add_token create t (term_of create t.text ts)) ≡ term_of create t.text (ts ++ t ∷ [])
  unfolding new_term_from_token register insert_all
  add_token-term_of create t [] = refl
  add_token-term_of create t (u ∷ us) =
      ap
        (λ n. some (record {
          text = t.text;
          tf = n;
          pl = (insert_entry S (insert_all S create (u ∷ us)) t).0;
        }))
        (omega (arith, length-append us (t ∷ [])))
      ∙ ap (λ l. some (record { text = t.text; tf = length (u ∷ us ++ t ∷ []); pl = l }))
          (sym (insert_all-append create (u ∷ us) (t ∷ [])))

  module _ (T : TermMap (Term S)) where
    open T use {Trie, empty, find, insert_key, find-empty, find-insert_key}

    unfoldable pub insert_tokens : PostingList S → Trie → List Token → Trie
    insert_tokens create lex [] = lex
    insert_tokens create lex (t ∷ ts) = insert_tokens create (insert_token S T create lex t).0 ts

    pub insert_token_lem :
        (create : PostingList S) (lex : Trie) (t : Token)
        → type_eq t.type null_token ≡ false
        → (insert_token S T create lex t).0
          ≡ insert_key t.text (add_token create t (find t.text lex)) lex
    unfolding insert_token new_term_from_token register
    insert_token_lem create lex t w = elim (Option-cases (find t.text lex)) [
      | inl e ↦ rw (w, e, insert_token) refl
      | inr (term, e) ↦ rw (w, e, insert_token) refl
    ]

    step :
        (create : PostingList S) (lex : Trie) (h : List Token) (t : Token)
        → ((x : Text) → find x lex ≡ term_of create x (select (is_of x) h))
        → (x : Text)
        → find x (insert_token S T create lex t).0
          ≡ term_of create x (select (is_of x) (h ++ t ∷ []))
    unfolding insert_token
    step create lex h t view x = elim (Bool-cases (type_eq t.type null_token)) [
      | inl ends ↦
          rw (ends, insert_token)
            (view x
              ∙ ap (term_of create x) (sym (select_left (is_of x) h t (ground (arith, ends)))))
      | inr word ↦ elim (Bool-cases (text_eq t.text x)) [
        | inl same ↦
            ap (find x) (insert_token_lem create lex t word)
            ∙ find-insert_key t.text x _ lex
            ∙ rw same (
                ap (λ o. some (add_token create t o)) (view t.text)
                ∙ add_token-term_of create t (select (is_of t.text) h)
                ∙ ap (λ y. term_of create y (select (is_of y) h ++ t ∷ []))
                    ((text_eq_iff t.text x).0 same)
                ∙ ap (term_of create x)
                    (sym (select_kept (is_of x) h t (ground (arith, word, same)))))
        | inr other ↦
            ap (find x) (insert_token_lem create lex t word)
            ∙ find-insert_key t.text x _ lex
            ∙ rw other (
                view x
                ∙ ap (term_of create x)
                    (sym (select_left (is_of x) h t (ground (arith, word, other)))))
      ]
    ]

    insert_tokens_from :
        (create : PostingList S) (lex : Trie) (h ts : List Token)
        → ((x : Text) → find x lex ≡ term_of create x (select (is_of x) h))
        → (x : Text)
        → find x (insert_tokens create lex ts) ≡ term_of create x (select (is_of x) (h ++ ts))
    unfolding insert_tokens
    insert_tokens_from create lex h [] view x =
        view x ∙ ap (λ l. term_of create x (select (is_of x) l)) (sym (append-nil h))
    insert_tokens_from create lex h (t ∷ ts) view x =
        insert_tokens_from create (insert_token S T create lex t).0 (h ++ t ∷ []) ts
          (step create lex h t view) x
        ∙ ap (λ l. term_of create x (select (is_of x) l)) (append_assoc h (t ∷ []) ts)

    -- After the tokens `ts` in an empty lexicon, a text is found exactly if one of them that does not
    -- end a document has it: its term counts these tokens, and its posting list has them inserted, in
    -- their order.
    pub find-insert_tokens :
        (create : PostingList S) (ts : List Token) (x : Text)
        → find x (insert_tokens create empty ts) ≡ term_of create x (select (is_of x) ts)
    find-insert_tokens create ts = insert_tokens_from create empty [] ts find-empty

    -- In a positional index, the term of a text counts the tokens with that text, and its posting list
    -- holds, for each document, the positions of these tokens in order, and no other document.
    pub indexed_positions :
        (ts : List Token) (x : Text) (term : Term S)
        → find x (insert_tokens (create_positional S) empty ts) ≡ some term
        → (term.tf ≡ length (select (is_of x) ts))
          × ((d : ℕ) → get_entry S term.pl d ≡ summary true d (occurrences d (select (is_of x) ts)))
    indexed_positions ts x term e =
        go (select (is_of x) ts) (sym (find-insert_tokens (create_positional S) ts x) ∙ e)
      where
        same_term :
            (u : Token) (us : List Token)
            → some (made (create_positional S) x (u ∷ us)) ≡ some term
            → made (create_positional S) x (u ∷ us) ≡ term
        same_term u us h = cc h

        go :
            (us : List Token)
            → term_of (create_positional S) x us ≡ some term
            → (term.tf ≡ length us)
              × ((d : ℕ) → get_entry S term.pl d ≡ summary true d (occurrences d us))
        go [] h = absurd (cc h)
        go (u ∷ us) h =
            subst
              (λ (t : Term S).
                (t.tf ≡ length (u ∷ us))
                × ((d : ℕ) → get_entry S t.pl d ≡ summary true d (occurrences d (u ∷ us))))
              (same_term u us h) (refl, (insert_all-positional S (u ∷ us)).view)
