-- ===== src/Constrained/Lexicon/Disk/Filed.antt =====
-- Files that have what the lexicon has, and what a part of the saving leaves as it was.
use irengine.Common.{
  some-injective, ℕ, ◌≡◌, refl, sym, ap, subst, ◌∙◌, inl, inr, Option, none, some, Text, Dict,
  nat_key, text_key, lookup,
}
use irengine.Indexer.SkipMap.{SkipMap}
use irengine.Indexer.Entry.{Entry}
use irengine.Indexer.PostingList.{PostingList}
use irengine.Constrained.PostingListSet.{PostingListSet, new_posting_list_set, load, dump}
use irengine.Constrained.PostingListSet.Reload.{view}
use irengine.Constrained.PostingListSet.Consistent.{IsConsistent}
use irengine.Constrained.PostingListSet.Restored.{load-dump-IsConsistent}
use irengine.Constrained.Lexicon.{Container, Lexicon}
use irengine.Constrained.Lexicon.Memory.Kept.{
  contents, entry_at, IsKept, IsSound, entry_at-contents,
}
use irengine.Constrained.Lexicon.Memory.Round.{IsEvicted}

module _ (S : SkipMap Entry) where
  -- The file of a tag can be read, and has these entries.
  abbrev pub HasFile : PostingList S → Dict Text Text → Text → (Text → ℕ → Option Entry) → Type 0
  HasFile init disk tag v =
      (text : Text) × (pls : PostingListSet S) × (lookup tag disk ≡ some text)
      × (load S (new_posting_list_set S init) text ≡ some pls)
      × IsConsistent S init pls
      × ((x : Text) (d : ℕ) → view S pls x d ≡ v x d)

  -- The file of a tag has what the lexicon has under the tag.
  abbrev pub IsFiled : Lexicon S → Text → Type 0
  IsFiled lex tag = HasFile lex.pl_init lex.disk tag (λ x d. entry_at S lex tag x d)

  -- What a part of the saving does to a lexicon: only its memory and its files change.
  pub record IsSaved (lex lex' : Lexicon S) : Type 0 where
    pub sound : IsSound S lex'
    pub tags : lex'.pl_set_cache ≡ lex.pl_set_cache
    pub init : lex'.pl_init ≡ lex.pl_init
    pub limit : lex'.max_load ≡ lex.max_load
    pub entries : (tag x : Text) (d : ℕ) → entry_at S lex' tag x d ≡ entry_at S lex tag x d
    pub filed : (tag : Text) → IsFiled lex tag → IsFiled lex' tag
    pub strays :
        (tag : Text)
        → lookup tag lex.pl_set_cache ≡ none
        → lookup tag lex'.disk ≡ lookup tag lex.disk

  pub IsSaved-refl : (lex : Lexicon S) → IsSound S lex → IsSaved lex lex
  IsSaved-refl lex s = record {
    sound = s;
    tags = refl;
    init = refl;
    limit = refl;
    entries = λ tag x d. refl;
    filed = λ tag h. h;
    strays = λ tag h. refl;
  }

  pub IsSaved-trans :
      (lex mid lex' : Lexicon S) → IsSaved lex mid → IsSaved mid lex' → IsSaved lex lex'
  IsSaved-trans lex mid lex' e f = record {
    sound = f.sound;
    tags = f.tags ∙ e.tags;
    init = f.init ∙ e.init;
    limit = f.limit ∙ e.limit;
    entries = λ tag x d. f.entries tag x d ∙ e.entries tag x d;
    filed = λ tag h. f.filed tag (e.filed tag h);
    strays = λ tag h. f.strays tag (ap (lookup tag) e.tags ∙ h) ∙ e.strays tag h;
  }

  pub HasFile-same :
      (init init' : PostingList S) (disk disk' : Dict Text Text) (tag : Text)
      (v v' : Text → ℕ → Option Entry)
      → init' ≡ init
      → lookup tag disk' ≡ lookup tag disk
      → ((x : Text) (d : ℕ) → v' x d ≡ v x d)
      → HasFile init disk tag v
      → HasFile init' disk' tag v'
  HasFile-same init init' disk disk' tag v v' i f e (text, pls, file, reads, ok, views) = (
    text,
    pls,
    f ∙ file,
    ap (λ k. load S (new_posting_list_set S k) text) i ∙ reads,
    subst (λ k. IsConsistent S k pls) (sym i) ok,
    λ x d. views x d ∙ sym (e x d),
  )

  -- The text that is written of a set in memory is a file of the set.
  pub dump-HasFile :
      (lex : Lexicon S) (sound : IsSound S lex) (tag : Text) (a : ℕ) (c : Container S)
      (pls : PostingListSet S) (disk : Dict Text Text)
      → lookup tag lex.pl_set_cache ≡ some a
      → lookup a lex.containers ≡ some c
      → c.pls ≡ some pls
      → lookup tag disk ≡ some (dump S pls)
      → HasFile lex.pl_init disk tag (λ x d. entry_at S lex tag x d)
  dump-HasFile lex sound tag a c pls disk here at loaded file =
      let (c0, at0, tagged, k) = sound.cached tag a here in
      let same : c0 ≡ c = some-injective (sym at0 ∙ at) in
      let kept =
        subst (λ o. IsKept S lex.pl_init lex.disk c.tag c.size o) loaded
          (subst (λ (e : Container S). IsKept S lex.pl_init lex.disk e.tag e.size e.pls) same k) in
      let (r, reads, ok, views) = load-dump-IsConsistent S lex.pl_init pls sound.maker kept.0 in
      (
        dump S pls,
        r,
        file,
        reads,
        ok,
        λ x d.
            views x d
            ∙ sym (
                entry_at-contents S lex tag x d a c here at
                ∙ ap (λ o. contents S lex.pl_init lex.disk c.tag o x d) loaded),
      )

  pub evict-IsSaved :
      (lex lex' : Lexicon S)
      → IsSound S lex
      → IsSound S lex'
      → IsEvicted S lex lex'
      → IsSaved lex lex'
  evict-IsSaved lex lex' s s' e = record {
    sound = s';
    tags = e.tags;
    init = e.init;
    limit = e.limits.0;
    entries = e.entries;
    filed = λ tag h. elim (e.files tag) [
      | inl same ↦
          HasFile-same lex.pl_init lex'.pl_init lex.disk lex'.disk tag _ _ e.init same
            (e.entries tag) h
      | inr (a, c, pls, here, at, loaded, file) ↦
          HasFile-same lex.pl_init lex'.pl_init lex'.disk lex'.disk tag _ _ e.init refl
            (e.entries tag) (dump-HasFile lex s tag a c pls lex'.disk here at loaded file)
    ];
    strays = λ tag new. elim (e.files tag) [
      | inl same ↦ same
      | inr (a, c, pls, here, at, loaded, file) ↦ absurd (differ (sym new ∙ here))
    ];
  }
    where
      differ : {a : ℕ} → none ≡ some a → ⊥
      differ h = cc
