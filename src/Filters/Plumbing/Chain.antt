-- ===== src/Filters/Plumbing/Chain.antt =====
-- What passes the filters of a chain, round by round.
use irengine.Common.{
  ◌≡◌, refl, ap, ◌∙◌, false, true, List, [], ◌∷◌, ◌++◌, append-nil, arith, All, All-append, not,
  ◌&&◌, Bool, Bool-cases, inl, inr,
}
use irengine.FileReader.Token.{Token, null_token, symbol_token, type_eq}
use irengine.Filters.Plumbing.{Filter, Stage, receive, stage, run, piped}

abbrev pub is_null : Token → Bool
is_null t = type_eq t.type null_token

abbrev pub is_symbol : Token → Bool
is_symbol t = type_eq t.type symbol_token

-- A token of the same document that is no end of a document and no symbol.
abbrev pub IsWordOf : Token → Token → Type 0
IsWordOf tok t = (is_null t ≡ false) × (is_symbol t ≡ false) × (t.doc_id ≡ tok.doc_id)

-- For the end of a document the end is sent at once, and nothing else; for any other token words of its
-- document are sent, or nothing.
pub record Delimits (a : Stage) : Type 0 where
  pub ends : (s : a.State) (tok : Token) → is_null tok ≡ true → (a.receive s tok).1 ≡ tok ∷ []
  pub words :
      (s : a.State) (tok : Token) → is_null tok ≡ false → All (IsWordOf tok) (a.receive s tok).1

-- A filter that makes words of words, and nothing of the end of a document.
pub record IsQuiet (f : Filter) : Type 0 where
  pub apply_words :
      (s : f.State) (tok : Token)
      → is_null tok ≡ false
      → is_symbol tok ≡ false
      → All (IsWordOf tok) (f.apply s tok).1
  pub silent : (s : f.State) → (f.notify_doc_complete s).1 ≡ []

no_symbol : (tok : Token) → is_null tok ≡ true → is_symbol tok ≡ false
no_symbol tok h = ground (arith, h)

pub Delimits-stage : (f : Filter) → IsQuiet f → Delimits (stage f)
unfolding stage receive
Delimits-stage f q = record {
  ends = λ s tok h. rw (no_symbol tok h, h) (ap (λ l. l ++ tok ∷ []) (q.silent s));
  words = λ s tok h. elim (Bool-cases (is_symbol tok)) [
    | inl sym_tok ↦ rw sym_tok tt
    | inr word ↦
        rw (word, h)
          (elim (Bool-cases (tok.final && not f.ignores_final)) [
            | inl passes ↦ rw passes ((h, word, refl), tt)
            | inr works ↦ rw works (q.apply_words s tok h word)
          ])
  ];
}

words_of_words :
    (tok mid : Token) (l : List Token)
    → IsWordOf tok mid
    → All (IsWordOf mid) l
    → All (IsWordOf tok) l
words_of_words tok mid [] w h = tt
words_of_words tok mid (t ∷ ts) (n, y, d) ((m, z, e), h) =
    ((m, z, e ∙ d), words_of_words tok mid ts (n, y, d) h)

run_words :
    (b : Stage) (tok : Token) (t : b.State) (mids : List Token)
    → Delimits b
    → All (IsWordOf tok) mids
    → All (IsWordOf tok) (run b t mids).1
unfolding run
run_words b tok t [] d h = tt
run_words b tok t (m ∷ ms) d ((n, y, e), h) =
    All-append (IsWordOf tok) (b.receive t m).1 (run b (b.receive t m).0 ms).1
      (words_of_words tok m (b.receive t m).1 (n, y, e) (d.words t m n))
      (run_words b tok (b.receive t m).0 ms d h)

pub Delimits-piped : (a b : Stage) → Delimits a → Delimits b → Delimits (piped a b)
unfolding piped run
Delimits-piped a b da db = record {
  ends = λ (s, t) tok h.
      ap (λ l. (run b t l).1) (da.ends s tok h) ∙ append-nil (b.receive t tok).1 ∙ db.ends t tok h;
  words = λ (s, t) tok h. run_words b tok t (a.receive s tok).1 db (da.words s tok h);
}
