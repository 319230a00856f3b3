-- ===== src/Constrained/Lexicon/Disk/Dumped.antt =====
-- `dump_pls` of a set in memory, in a sound lexicon.
use irengine.Common.{
  some-injective, ℕ, ◌≡◌, refl, sym, ap, subst, ◌∙◌, ◌⊎◌, inl, inr, false, Option, none, some,
  arith, Text, text_eq, text_eq_iff, nat_key, text_key, lookup, insert, lookup-insert, Bool-cases,
  Option-cases,
}
use irengine.Indexer.SkipMap.{SkipMap}
use irengine.Indexer.Entry.{Entry}
use irengine.Constrained.PostingListSet.{PostingListSet, dump}
use irengine.Constrained.Lexicon.{Container, Lexicon}
use irengine.Constrained.Lexicon.Memory.Kept.{
  contents, entry_at, IsKept, IsSound, entry_at-contents, contents-insert, IsKept-insert,
}
use irengine.Constrained.Lexicon.Disk.Filed.{IsFiled, IsSaved, HasFile-same, dump-HasFile}

module _ (S : SkipMap Entry) where
  module _ (lex : Lexicon S) (sound : IsSound S lex) (a : ℕ) (c : Container S)
      (pls : PostingListSet S) (at : lookup a lex.containers ≡ some c)
      (loaded : c.pls ≡ some pls) where
    abbrev pub dumped : Lexicon S
    dumped = record lex { disk = insert c.tag (dump S pls) lex.disk }

    here : lookup c.tag lex.pl_set_cache ≡ some a
    here = sound.owned a c at

    -- A container of a tag is the one whose set is written, or its file is not written.
    own_or_other :
        (tag : Text) (b : ℕ) (e : Container S)
        → lookup tag lex.pl_set_cache ≡ some b
        → lookup b lex.containers ≡ some e
        → e.tag ≡ tag
        → (e.pls ≡ some pls) ⊎ (text_eq c.tag e.tag ≡ false)
    own_or_other tag b e key f tagged = elim (Bool-cases (text_eq c.tag e.tag)) [
      | inr other ↦ inr other
      | inl same ↦
          let tags : c.tag ≡ tag = (text_eq_iff c.tag e.tag).0 same ∙ tagged in
          let keys : a ≡ b =
            some-injective (sym here ∙ ap (λ t. lookup t lex.pl_set_cache) tags ∙ key) in
          let ours : c ≡ e = some-injective (sym at ∙ ap (λ i. lookup i lex.containers) keys ∙ f) in
          inl (ap (λ (k : Container S). k.pls) (sym ours) ∙ loaded)
    ]

    dumped-IsSound : IsSound S dumped
    dumped-IsSound = record {
      maker = sound.maker;
      distinct = sound.distinct;
      cached = λ tag b key.
          let (e, f, tagged, k) = sound.cached tag b key in
          (e, f, tagged, kept e.size e.pls e.tag k (own_or_other tag b e key f tagged));
      recent = sound.recent;
      apart = sound.apart;
      fresh = sound.fresh;
      owned = sound.owned;
    }
      where
        kept :
            (size : ℕ) (o : Option (PostingListSet S)) (tag : Text)
            → IsKept S lex.pl_init lex.disk tag size o
            → (o ≡ some pls) ⊎ (text_eq c.tag tag ≡ false)
            → IsKept S lex.pl_init (insert c.tag (dump S pls) lex.disk) tag size o
        kept size (some p) tag k h = k
        kept size none tag k (inl h) = absurd (cc)
        kept size none tag k (inr h) =
            IsKept-insert S lex.pl_init lex.disk c.tag (dump S pls) tag size none h k

    dumped-entries : (tag x : Text) (d : ℕ) → entry_at S dumped tag x d ≡ entry_at S lex tag x d
    dumped-entries tag x d = elim (Option-cases (lookup tag lex.pl_set_cache)) [
      | inl new ↦ ground (arith, new)
      | inr (b, key) ↦
          let (e, f, tagged, k) = sound.cached tag b key in
          entry_at-contents S dumped tag x d b e key f
          ∙ same e.pls e.tag (own_or_other tag b e key f tagged)
          ∙ sym (entry_at-contents S lex tag x d b e key f)
    ]
      where
        same :
            (o : Option (PostingListSet S)) (t : Text)
            → (o ≡ some pls) ⊎ (text_eq c.tag t ≡ false)
            → contents S lex.pl_init (insert c.tag (dump S pls) lex.disk) t o x d
              ≡ contents S lex.pl_init lex.disk t o x d
        same (some p) t h = refl
        same none t (inl h) = absurd (cc)
        same none t (inr h) = contents-insert S lex.pl_init lex.disk c.tag (dump S pls) t x d none h

    dumped_file : lookup c.tag dumped.disk ≡ some (dump S pls)
    dumped_file = lookup-insert c.tag c.tag _ lex.disk ∙ rw ((text_eq_iff c.tag c.tag).1 refl) refl

    pub dumped-IsFiled : IsFiled S dumped c.tag
    dumped-IsFiled =
        HasFile-same S lex.pl_init lex.pl_init dumped.disk dumped.disk c.tag _ _ refl refl
          (dumped-entries c.tag)
          (dump-HasFile S lex sound c.tag a c pls dumped.disk here at loaded dumped_file)

    pub dumped-IsSaved : IsSaved S lex dumped
    dumped-IsSaved = record {
      sound = dumped-IsSound;
      tags = refl;
      init = refl;
      limit = refl;
      entries = dumped-entries;
      filed = λ tag h. elim (Bool-cases (text_eq c.tag tag)) [
        | inl same ↦ subst (IsFiled S dumped) ((text_eq_iff c.tag tag).0 same) dumped-IsFiled
        | inr other ↦
            HasFile-same S lex.pl_init lex.pl_init lex.disk dumped.disk tag _ _ refl
              (lookup-insert c.tag tag _ lex.disk ∙ rw other refl) (dumped-entries tag) h
      ];
      strays = λ tag new. lookup-insert c.tag tag _ lex.disk ∙ rw (not_own tag new) refl;
    }
      where
        not_own : (tag : Text) → lookup tag lex.pl_set_cache ≡ none → text_eq c.tag tag ≡ false
        not_own tag new = ground (arith, text_eq_iff c.tag tag, here, new)
