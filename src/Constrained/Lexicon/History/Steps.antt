-- ===== src/Constrained/Lexicon/History/Steps.antt =====
-- What the steps of the lexicon of bounded memory keep beside the plain lexicon.
use irengine.Common.{
  ℕ, ◌+◌, ◌==◌, ◌≡◌, refl, sym, ap, subst, ◌∙◌, inl, inr, if◌then◌else◌, ◌&&◌, true, false, Option,
  none, some, List, [], Text, text_eq, nat_key, text_key, lookup, some-injective, Option-cases,
}
use irengine.FileReader.Token.{Token, null_token, type_eq}
use irengine.Indexer.SkipMap.{SkipMap}
use irengine.Indexer.Ordered.{ordered_same}
use irengine.Indexer.Entry.{Entry}
use irengine.Indexer.TermMap.{TermMap}
use irengine.Indexer.PostingList.{PostingList, get_entry}
use irengine.Indexer.PostingList.Valid.{get_entry-entries}
use irengine.Indexer.PostingList.Inserted.{added_to}
use irengine.Indexer.Lexicon.{Term, insert_token as insert_plain}
use irengine.Constrained.PostingListSet.Restored.{IsMaker}
use irengine.Constrained.Lexicon.{Lexicon, swapped_worker}
use irengine.Constrained.Lexicon.Metadata.RoundTrip.{IsInt64}
use irengine.Constrained.Lexicon.Memory.Kept.{entry_at, IsSound}
use irengine.Constrained.Lexicon.Terms.{PersistentTerm}
use irengine.Constrained.Lexicon.Terms.Entries.{IsIndexed, Inserts, entry_of, tf_of}
use irengine.Constrained.Lexicon.Terms.Queried.{Queries}
use irengine.Constrained.Lexicon.Disk.{sum_frequencies}
use irengine.Constrained.Lexicon.Disk.Indexed.{IsCounted}
use irengine.Constrained.Lexicon.Disk.RoundTrip.{IsClean}
use irengine.Constrained.Lexicon.History.Plain.{
  list_of, tf_or_zero, plain_tf, plain_entry, IsPlain, none-IsPlain, insert_token-Inserted,
}

module _ (S : SkipMap Entry) (B : TermMap PersistentTerm) (P : TermMap (Term S))
    (create : PostingList S) (maker : IsMaker S create) where
  open S use {entries, entries-IsOrdered}

  -- A text has the same count and the same entries in both lexicons.
  pub record IsAlike (lex : Lexicon S) (trie : B.Trie) (plain : P.Trie) : Type 0 where
    pub sound : IsSound S lex
    pub index : IsIndexed S B lex trie
    pub init : lex.pl_init ≡ create
    pub wide : IsInt64 lex.max_load
    pub clean : IsClean S lex
    pub valid : (x : Text) → IsPlain S P create maker (P.find x plain)
    pub counts : (x : Text) → tf_of S B trie x ≡ plain_tf S P create maker plain x
    pub same :
        (x : Text) (d : ℕ) → entry_of S B lex trie x d ≡ plain_entry S P create maker plain x d

  pub starts-IsAlike :
      (lex : Lexicon S)
      → IsSound S lex
      → IsIndexed S B lex B.empty
      → lex.pl_init ≡ create
      → IsInt64 lex.max_load
      → IsClean S lex
      → IsAlike lex B.empty P.empty
  starts-IsAlike lex sound index init wide clean = record {
    sound = sound;
    index = index;
    init = init;
    wide = wide;
    clean = clean;
    valid = λ x.
        subst (IsPlain S P create maker) (sym (P.find-empty x)) (none-IsPlain S P create maker);
    counts = λ x.
        ap (λ o. elim o [ none ↦ 0 | some t ↦ t.tf ]) (B.find-empty x)
        ∙ sym (ap (tf_or_zero S P create maker) (P.find-empty x));
    same = λ x d.
        ap (λ o. elim o [ none ↦ none | some t ↦ entry_at S lex t.data_tag x d ]) (B.find-empty x)
        ∙ sym (
            ap (λ o. get_entry S (list_of S P create maker o) d) (P.find-empty x)
            ∙ get_entry-entries S create d
            ∙ rw maker.bare refl);
  }

  pub works-IsAlike :
      (lex : Lexicon S) (trie : B.Trie) (plain : P.Trie)
      → IsAlike lex trie plain
      → IsAlike (swapped_worker S lex) trie plain
  unfolding swapped_worker
  works-IsAlike lex trie plain like = record {
    sound = record {
      maker = like.sound.maker;
      distinct = like.sound.distinct;
      cached = like.sound.cached;
      recent = like.sound.recent;
      apart = like.sound.apart;
      fresh = like.sound.fresh;
      owned = like.sound.owned;
    };
    index = record { held = like.index.held; known = like.index.known };
    init = like.init;
    wide = like.wide;
    clean = like.clean;
    valid = like.valid;
    counts = like.counts;
    same = like.same;
  }

  pub Inserts-IsAlike :
      (lex lex' : Lexicon S) (trie trie' : B.Trie) (plain : P.Trie) (token : Token)
      (o : Option (Lexicon S × B.Trie))
      → IsAlike lex trie plain
      → type_eq token.type null_token ≡ false
      → Inserts S B lex trie token o
      → o ≡ some (lex', trie')
      → IsAlike lex' trie' (insert_plain S P create plain token).0
  Inserts-IsAlike lex lex' trie trie' plain token o like word
        (mid, trie1, runs, (s, i, keeps), tfs, changed) got =
      let (valid, counts, same) =
        insert_token-Inserted S P create maker plain token word like.valid in
      subst (λ (p : Lexicon S × B.Trie). IsAlike p.0 p.1 (insert_plain S P create plain token).0)
        (some-injective (sym runs ∙ got))
        (record {
          sound = s;
          index = i;
          init = keeps.0 ∙ like.init;
          wide = subst IsInt64 (sym keeps.1) like.wide;
          clean = λ t h. let (new, f) = keeps.2 t h in f ∙ like.clean t new;
          valid = valid;
          counts = λ x.
              tfs x
              ∙ ap (λ n. if text_eq token.text x then n + 1 else n) (like.counts x)
              ∙ sym (counts x);
          same = λ x d.
              changed x d
              ∙ ap
                  (λ k.
                    if text_eq token.text x && token.doc_id == d
                    then some (added_to k token (entry_of S B lex trie token.text token.doc_id))
                    else entry_of S B lex trie x d)
                  (ap (λ (q : PostingList S). q.is_positional) like.init)
              ∙ ap
                  (λ e.
                    if text_eq token.text x && token.doc_id == d
                    then some (added_to create.is_positional token e)
                    else entry_of S B lex trie x d)
                  (like.same token.text token.doc_id)
              ∙ ap
                  (λ e.
                    if text_eq token.text x && token.doc_id == d
                    then some (
                        added_to create.is_positional token
                          (plain_entry S P create maker plain token.text token.doc_id))
                    else e)
                  (like.same x d)
              ∙ sym (same x d);
        })

  pub Queries-IsAlike :
      (lex lex' : Lexicon S) (trie : B.Trie) (plain : P.Trie) (x : Text) (t' : PersistentTerm)
      (pl : PostingList S) (o : Option (Lexicon S × PersistentTerm × PostingList S))
      → IsAlike lex trie plain
      → Queries S B lex trie x o
      → o ≡ some (lex', t', pl)
      → IsAlike lex' (B.insert_key x t' trie) plain
  Queries-IsAlike lex lex' trie plain x t' pl o like
        (mid, t1, pl1, runs, (s, i, keeps), answer, tfs, terms) got =
      subst
        (λ (p : Lexicon S × PersistentTerm × PostingList S).
          IsAlike p.0 (B.insert_key x p.1 trie) plain)
        (some-injective (sym runs ∙ got))
        (record {
          sound = s;
          index = i;
          init = keeps.0 ∙ like.init;
          wide = subst IsInt64 (sym keeps.1) like.wide;
          clean = λ t h. let (new, f) = keeps.2 t h in f ∙ like.clean t new;
          valid = like.valid;
          counts = λ y. tfs y ∙ like.counts y;
          same = λ y d. terms y d ∙ like.same y d;
        })

  pub passes-plain :
      (plain : P.Trie) (token : Token)
      → type_eq token.type null_token ≡ true
      → (insert_plain S P create plain token).0 ≡ plain
  unfolding insert_plain
  passes-plain plain token null = rw (null, insert_plain) refl

  -- The lists of the entries in the order of the documents are the same, and so are their counts.
  pub loaded_counts :
      (lex : Lexicon S) (trie : B.Trie) (plain : P.Trie) (x : Text)
      → IsPlain S P create maker (P.find x plain)
      → IsCounted S B lex trie
      → ((d : ℕ) → entry_of S B lex trie x d ≡ plain_entry S P create maker plain x d)
      → tf_of S B trie x ≡ plain_tf S P create maker plain x
  loaded_counts lex trie plain x (v, kind, sums) counted same =
      elim (Option-cases (B.find x trie)) [
        | inl missing ↦
            ap (λ o. elim o [ none ↦ 0 | some t ↦ t.tf ]) missing
            ∙ ap sum_frequencies (
                ordered_same [] list tt (entries-IsOrdered _)
                  (λ d. sym (none_of missing d) ∙ same d ∙ listed d))
            ∙ sym sums
        | inr (t, at) ↦
            let (l, o, tf, own) = counted x t at in
            ap (λ o. elim o [ none ↦ 0 | some t ↦ t.tf ]) at
            ∙ tf
            ∙ ap sum_frequencies (
                ordered_same l list o (entries-IsOrdered _)
                  (λ d. own d ∙ sym (term_of t at d) ∙ same d ∙ listed d))
            ∙ sym sums
      ]
    where
      list : List (ℕ × Entry)
      list = entries (list_of S P create maker (P.find x plain)).list

      listed : (d : ℕ) → plain_entry S P create maker plain x d ≡ lookup d list
      listed d = get_entry-entries S (list_of S P create maker (P.find x plain)) d

      none_of : B.find x trie ≡ none → (d : ℕ) → entry_of S B lex trie x d ≡ none
      none_of h d = ap (λ o. elim o [ none ↦ none | some k ↦ entry_at S lex k.data_tag x d ]) h

      term_of :
          (t : PersistentTerm)
          → B.find x trie ≡ some t
          → (d : ℕ) → entry_of S B lex trie x d ≡ entry_at S lex t.data_tag x d
      term_of t h d = ap (λ o. elim o [ none ↦ none | some k ↦ entry_at S lex k.data_tag x d ]) h
