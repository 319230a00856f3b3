-- ===== src/Constrained/Lexicon/Memory/Kept.antt =====
-- What the lexicon has of a term and a document, in memory or on disk, and what holds between two calls.
use irengine.Common.{
  ℕ, ◌<◌, ==_iff, ◌≡◌, ◌≢◌, refl, ◌∙◌, false, Option, none, some, List, [], ◌∷◌, arith, All, Text,
  text_eq, Dict, nat_key, text_key, lookup, insert, lookup-insert,
}
use irengine.Indexer.SkipMap.{SkipMap}
use irengine.Indexer.Entry.{Entry}
use irengine.Indexer.PostingList.{PostingList}
use irengine.Constrained.PostingListSet.{PostingListSet, new_posting_list_set, load}
use irengine.Constrained.PostingListSet.Reload.{AreDistinct, view}
use irengine.Constrained.PostingListSet.Consistent.{IsConsistent}
use irengine.Constrained.PostingListSet.Restored.{IsMaker}
use irengine.Constrained.Lexicon.{Container, Lexicon}

-- No number stands twice.
abbrev pub AreApart : List ℕ → Type 0
AreApart [] = Unit
AreApart (a ∷ l) = All (λ b. a ≢ b) l × AreApart l

module _ (S : SkipMap Entry) where
  -- The entry of a set that is in memory, or that its file has.
  abbrev pub contents :
      PostingList S → Dict Text Text → Text → Option (PostingListSet S) → Text → ℕ → Option Entry
  contents init disk tag (some pls) x d = view S pls x d
  contents init disk tag none x d = elim (lookup tag disk) [
    | none ↦ none
    | some text ↦ elim (load S (new_posting_list_set S init) text) [
      | none ↦ none
      | some pls ↦ view S pls x d
    ]
  ]

  -- The entry of a document for a term, by the term's tag.
  abbrev pub entry_at : Lexicon S → Text → Text → ℕ → Option Entry
  entry_at lex tag x d = elim (lookup tag lex.pl_set_cache) [
    | none ↦ none
    | some a ↦ elim (lookup a lex.containers) [
      | none ↦ none
      | some c ↦ contents lex.pl_init lex.disk c.tag c.pls x d
    ]
  ]

  -- A set is as it should be, with its size in the container; one on disk can be read.
  abbrev pub IsKept : PostingList S → Dict Text Text → Text → ℕ → Option (PostingListSet S) → Type 0
  IsKept init disk tag size (some pls) = IsConsistent S init pls × (size ≡ pls.size)
  IsKept init disk tag size none =
      (text : Text) × (pls : PostingListSet S) × (lookup tag disk ≡ some text)
      × (load S (new_posting_list_set S init) text ≡ some pls)
      × IsConsistent S init pls
      × (size ≡ pls.size)

  -- A container in the order of the sets in memory: its set is loaded, and it is the one of its tag.
  abbrev pub IsRecent : Dict ℕ (Container S) → Dict Text ℕ → ℕ → Type 0
  IsRecent containers cache a =
      (c : Container S) × (pls : PostingListSet S) × (lookup a containers ≡ some c)
      × (c.pls ≡ some pls)
      × (lookup c.tag cache ≡ some a)

  pub record IsSound (lex : Lexicon S) : Type 0 where
    pub maker : IsMaker S lex.pl_init
    pub distinct : AreDistinct lex.pl_set_cache
    pub cached :
        (tag : Text) (a : ℕ)
        → lookup tag lex.pl_set_cache ≡ some a
        → (c : Container S) × (lookup a lex.containers ≡ some c)
          × (c.tag ≡ tag)
          × IsKept lex.pl_init lex.disk c.tag c.size c.pls
    pub recent : All (IsRecent lex.containers lex.pl_set_cache) lex.lru_cache
    pub apart : AreApart lex.lru_cache
    pub fresh : (a : ℕ) (c : Container S) → lookup a lex.containers ≡ some c → a < lex.next
    pub owned :
        (a : ℕ) (c : Container S)
        → lookup a lex.containers ≡ some c
        → lookup c.tag lex.pl_set_cache ≡ some a

  pub entry_at-contents :
      (lex : Lexicon S) (tag x : Text) (d a : ℕ) (c : Container S)
      → lookup tag lex.pl_set_cache ≡ some a
      → lookup a lex.containers ≡ some c
      → entry_at lex tag x d ≡ contents lex.pl_init lex.disk c.tag c.pls x d
  entry_at-contents lex tag x d a c e f = ground arith

  -- The file of another tag does not matter.
  pub contents-insert :
      (init : PostingList S) (disk : Dict Text Text) (t v tag x : Text) (d : ℕ)
      (o : Option (PostingListSet S))
      → text_eq t tag ≡ false
      → contents init (insert t v disk) tag o x d ≡ contents init disk tag o x d
  contents-insert init disk t v tag x d (some pls) h = refl
  contents-insert init disk t v tag x d none h = ground (arith, lookup-insert t tag v disk)

  pub IsKept-insert :
      (init : PostingList S) (disk : Dict Text Text) (t v tag : Text) (size : ℕ)
      (o : Option (PostingListSet S))
      → text_eq t tag ≡ false
      → IsKept init disk tag size o
      → IsKept init (insert t v disk) tag size o
  IsKept-insert init disk t v tag size (some pls) h k = k
  IsKept-insert init disk t v tag size none h (text, pls, f, l, c, z) =
      (text, pls, lookup-insert t tag v disk ∙ rw h f, l, c, z)

  -- Another container does not matter.
  pub IsRecent-insert :
      (containers : Dict ℕ (Container S)) (cache : Dict Text ℕ) (b a : ℕ) (c : Container S)
      → b ≢ a
      → IsRecent containers cache a
      → IsRecent (insert b c containers) cache a
  IsRecent-insert containers cache b a c n (c', pls, f, l, h) =
      (c', pls, lookup-insert b a c containers ∙ ground (arith, ==_iff b a), l, h)

  pub AllRecent-insert :
      (containers : Dict ℕ (Container S)) (cache : Dict Text ℕ) (b : ℕ) (c : Container S)
      (l : List ℕ)
      → All (λ a. b ≢ a) l
      → All (IsRecent containers cache) l
      → All (IsRecent (insert b c containers) cache) l
  AllRecent-insert containers cache b c [] n r = tt
  AllRecent-insert containers cache b c (a ∷ l) (n, ns) (r, rs) =
      (IsRecent-insert containers cache b a c n r, AllRecent-insert containers cache b c l ns rs)
