-- ===== src/Constrained/Lexicon/History/Alike.antt =====
-- The lexicon of bounded memory answers as the plain lexicon does.
use irengine.Common.{
  ℕ, ◌≡◌, refl, sym, subst, ◌∙◌, Bool, true, Option, some, List, Text, Dict, nat_key, text_key,
  some-injective,
}
use irengine.FileReader.Token.{Token, null_token, type_eq}
use irengine.Indexer.SkipMap.{SkipMap}
use irengine.Indexer.Entry.{Entry}
use irengine.Indexer.TermMap.{TermMap}
use irengine.Indexer.PostingList.{PostingList}
use irengine.Indexer.PostingList.Inserted.{added_to}
use irengine.Indexer.Lexicon.{Term, insert_token as insert_plain}
use irengine.Constrained.PostingListSet.RoundTrip.{IsDumpable}
use irengine.Constrained.PostingListSet.Restored.{IsMaker}
use irengine.Constrained.Lexicon.{LoadTests, Lexicon}
use irengine.Constrained.Lexicon.Metadata.RoundTrip.{IsInt64, named_init}
use irengine.Constrained.Lexicon.Terms.{PersistentTerm, insert_token}
use irengine.Constrained.Lexicon.Terms.Chosen.{IsBelow}
use irengine.Constrained.Lexicon.Terms.Entries.{entry_of}
use irengine.Constrained.Lexicon.Terms.Indexed.{insert_token_lem}
use irengine.Constrained.Lexicon.Terms.Queried.{retrieve_posting_list_lem}
use irengine.Constrained.Lexicon.Terms.Fresh.{new_lexicon_lem}
use irengine.Constrained.Lexicon.Disk.{load_from_disk}
use irengine.Constrained.Lexicon.Disk.RoundTrip.{IsGlob, Reloads, load_from_disk-save_to_disk}
use irengine.Constrained.Lexicon.History.{Reaches, starts, works, passes, inserts, queries, reloads}
use irengine.Constrained.Lexicon.History.Plain.{plain_entry}
use irengine.Constrained.Lexicon.History.Steps.{
  IsAlike, starts-IsAlike, works-IsAlike, Inserts-IsAlike, Queries-IsAlike, passes-plain,
  loaded_counts,
}

module _ (S : SkipMap Entry) (B : TermMap PersistentTerm) (P : TermMap (Term S))
    (create : PostingList S) (maker : IsMaker S create) where
  module _ (F : LoadTests) (can_create : Text → Bool) (creates : (t : Text) → can_create t ≡ true)
      (laws : IsBelow F) (glob : Dict Text Text → List Text) (globs : IsGlob glob)
      (named : named_init S create ≡ create) where
    passes-run :
        (lex : Lexicon S) (trie : B.Trie) (token : Token) (fresh : Text) (generated : List Text)
        → type_eq token.type null_token ≡ true
        → insert_token S F can_create B fresh generated lex trie token ≡ some (lex, trie)
    unfolding insert_token
    passes-run lex trie token fresh generated null = rw (null, insert_token) refl

    Reloads-IsAlike :
        (lex lex' : Lexicon S) (trie trie' : B.Trie) (plain : P.Trie)
        (o : Option (Lexicon S × B.Trie))
        → IsAlike S B P create maker lex trie plain
        → Reloads S B F can_create creates glob globs lex trie o
        → o ≡ some (lex', trie')
        → IsAlike S B P create maker lex' trie' plain
    Reloads-IsAlike lex lex' trie trie' plain o like
          (mid, trie1, runs, (s, i, n, clean), (init, limit), tags, terms) got =
        let same : (x : Text) (d : ℕ)
            → entry_of S B mid trie1 x d ≡ plain_entry S P create maker plain x d =
          λ x d. terms x d ∙ like.same x d in
        subst (λ (p : Lexicon S × B.Trie). IsAlike S B P create maker p.0 p.1 plain)
          (some-injective (sym runs ∙ got))
          (record {
            sound = s;
            index = i;
            init = init ∙ like.init;
            wide = subst IsInt64 (sym limit) like.wide;
            clean = clean;
            valid = like.valid;
            counts =
                λ x. loaded_counts S B P create maker mid trie1 plain x (like.valid x) n (same x);
            same = same;
          })

    -- Whatever tokens come in, whichever posting lists are read, whenever the worker runs, and however
    -- often the lexicon is saved and loaded: the lexicon of bounded memory has for each text the same
    -- count, and for each document the same entry, as the lexicon that keeps its lists in memory, and
    -- it is sound. Files can be created and are listed once each by their tags, the initializer makes
    -- an empty list of one of the two kinds, and the tests on sizes take no size above the limit. In
    -- each step the new tags are not in use and a line can hold the changed entry; the limit and the
    -- number of sets are of 64 bits.
    pub Reaches-IsAlike :
        (lex : Lexicon S) (trie : B.Trie) (plain : P.Trie)
        → Reaches S B P F can_create glob create lex trie plain
        → IsAlike S B P create maker lex trie plain
    Reaches-IsAlike _ _ _ (starts limit wide) =
        let (s, i, init, load, clean) = new_lexicon_lem S B create limit maker in
        starts-IsAlike S B P create maker _ s i init (subst IsInt64 (sym load) wide)
          (λ t h. clean t)
    Reaches-IsAlike _ _ _ (works {lex} {trie} {plain} r) =
        works-IsAlike S B P create maker lex trie plain (Reaches-IsAlike lex trie plain r)
    Reaches-IsAlike _ _ _
          (passes {lex} {lex'} {trie} {trie'} {plain} fresh generated token r null runs) =
        let like = Reaches-IsAlike lex trie plain r in
        subst
          (λ (p : Lexicon S × B.Trie).
            IsAlike S B P create maker p.0 p.1 (insert_plain S P create plain token).0)
          (some-injective (sym (passes-run lex trie token fresh generated null) ∙ runs))
          (subst (IsAlike S B P create maker lex trie)
            (sym (passes-plain S B P create maker plain token null)) like)
    Reaches-IsAlike _ _ _
          (inserts {lex} {lex'} {trie} {trie'} {plain} fresh generated more token r word new_fresh
            new line runs) =
        let like = Reaches-IsAlike lex trie plain r in
        Inserts-IsAlike S B P create maker lex lex' trie trie' plain token _ like word
          (insert_token_lem S B F can_create creates laws lex trie token fresh generated more
            like.sound like.index word new_fresh new
            (subst
              (λ (i : PostingList S). IsDumpable (i.entry_factory 0) (
                token.text,
                added_to i.is_positional token (entry_of S B lex trie token.text token.doc_id),
              ))
              (sym like.init) line))
          runs
    Reaches-IsAlike _ _ _
          (queries {lex} {lex'} {trie} {plain} {t} {t'} {pl} x generated more r at new runs) =
        let like = Reaches-IsAlike lex trie plain r in
        Queries-IsAlike S B P create maker lex lex' trie plain x t' pl _ like
          (retrieve_posting_list_lem S B F can_create creates lex trie x generated more t like.sound
            like.index at new)
          runs
    Reaches-IsAlike _ _ _
          (reloads {lex} {lex'} {trie} {trie'} {plain} saved metadata r many saves loads) =
        let like = Reaches-IsAlike lex trie plain r in
        let (saved1, metadata1, runs, again) =
          load_from_disk-save_to_disk S B F can_create creates glob globs lex trie like.sound
            like.index (subst (λ i. named_init S i ≡ i) (sym like.init) named) like.wide many
            like.clean in
        Reloads-IsAlike lex lex' trie trie' plain _ like
          (subst
            (λ (p : Lexicon S × Text).
              Reloads S B F can_create creates glob globs lex trie
                (load_from_disk S F can_create B glob p.0.disk (some p.1)))
            (some-injective (sym runs ∙ saves)) again)
          loads
