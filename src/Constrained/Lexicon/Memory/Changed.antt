-- ===== src/Constrained/Lexicon/Memory/Changed.antt =====
-- Changes of one container, and a new one: the lexicon stays sound.
use irengine.Common.{
  some-injective, ℕ, ◌<◌, ◌==◌, ==_iff, ◌≡◌, ◌≢◌, refl, sym, ap, subst, ◌∙◌, inl, inr,
  if◌then◌else◌, Bool, false, true, some, List, [], ◌∷◌, ◌++◌, arith, All, Text, text_eq,
  text_eq_iff, nat_key, text_key, lookup, lookup-insert, Bool-cases, Option-cases, length,
}
use irengine.Indexer.SkipMap.{SkipMap}
use irengine.Indexer.Entry.{Entry}
use irengine.Constrained.PostingListSet.{PostingListSet}
use irengine.Constrained.PostingListSet.Reload.{view}
use irengine.Constrained.PostingListSet.Consistent.{IsConsistent}
use irengine.Constrained.Lexicon.{Container, Lexicon, move_last, make_recent}
use irengine.Constrained.Lexicon.Memory.{store}
use irengine.Constrained.Lexicon.Memory.Kept.{
  AreApart, contents, entry_at, IsKept, IsRecent, IsSound, entry_at-contents,
}

pub All-move_last : (P : ℕ → Type 0) (a : ℕ) (l : List ℕ) → All P l → All P (move_last a l)
unfolding move_last
All-move_last P a [] h = tt
All-move_last P a (b ∷ l) (p, h) = elim (Bool-cases (b == a)) [
  | inl same ↦ rw same (at_end l h (subst P ((==_iff b a).0 same) p))
  | inr other ↦ rw other (p, All-move_last P a l h)
]
  where
    at_end : (k : List ℕ) → All P k → P a → All P (k ++ a ∷ [])
    at_end [] h q = (q, tt)
    at_end (c ∷ k) (p, h) q = (p, at_end k h q)

pub AreApart-snoc : (a : ℕ) (l : List ℕ) → All (λ b. b ≢ a) l → AreApart l → AreApart (l ++ a ∷ [])
AreApart-snoc a [] n h = (tt, tt)
AreApart-snoc a (b ∷ l) (n, ns) (m, h) = (at_end l m, AreApart-snoc a l ns h)
  where
    at_end : (k : List ℕ) → All (λ c. b ≢ c) k → All (λ c. b ≢ c) (k ++ a ∷ [])
    at_end [] h = (n, tt)
    at_end (c ∷ k) (p, h) = (p, at_end k h)

pub all_sym : (a : ℕ) (l : List ℕ) → All (λ b. a ≢ b) l → All (λ b. b ≢ a) l
all_sym a [] h = tt
all_sym a (b ∷ l) (n, h) = (λ e. n (sym e), all_sym a l h)

pub AreApart-move_last : (a : ℕ) (l : List ℕ) → AreApart l → AreApart (move_last a l)
unfolding move_last
AreApart-move_last a [] h = tt
AreApart-move_last a (b ∷ l) (n, h) = elim (Bool-cases (b == a)) [
  | inl same ↦
      rw same (
        AreApart-snoc a l (all_sym a l (subst (λ i. All (λ c. i ≢ c) l) ((==_iff b a).0 same) n)) h)
  | inr other ↦ rw other (All-move_last (λ c. b ≢ c) a l n, AreApart-move_last a l h)
]

module _ (S : SkipMap Entry) where
  pub make_recent-IsSound :
      (lex : Lexicon S) (a : ℕ) → IsSound S lex → IsSound S (make_recent S lex a)
  unfolding make_recent
  make_recent-IsSound lex a s = go (length lex.lru_cache == 1)
    where
      go :
          (b : Bool)
          → IsSound S (if b then lex else record lex { lru_cache = move_last a lex.lru_cache })
      go true = s
      go false = record {
        maker = s.maker;
        distinct = s.distinct;
        cached = s.cached;
        recent =
            All-move_last (IsRecent S lex.containers lex.pl_set_cache) a lex.lru_cache s.recent;
        apart = AreApart-move_last a lex.lru_cache s.apart;
        fresh = s.fresh;
        owned = s.owned;
      }

  pub make_recent-same :
      (lex : Lexicon S) (a : ℕ)
      → ((make_recent S lex a).containers ≡ lex.containers)
        × ((make_recent S lex a).pl_set_cache ≡ lex.pl_set_cache)
        × ((tag x : Text) (d : ℕ)
            → entry_at S (make_recent S lex a) tag x d ≡ entry_at S lex tag x d)
        × ((make_recent S lex a).pl_init ≡ lex.pl_init)
  unfolding make_recent
  make_recent-same lex a = go (length lex.lru_cache == 1)
    where
      go :
          (b : Bool)
          → ((if b then lex else record lex { lru_cache = move_last a lex.lru_cache }).containers
              ≡ lex.containers)
            × ((if b
                  then lex
                  else record lex { lru_cache = move_last a lex.lru_cache }).pl_set_cache
                ≡ lex.pl_set_cache)
            × ((tag x : Text) (d : ℕ)
                → entry_at S
                    (if b then lex else record lex { lru_cache = move_last a lex.lru_cache })
                    tag
                    x
                    d
                  ≡ entry_at S lex tag x d)
            × ((if b then lex else record lex { lru_cache = move_last a lex.lru_cache }).pl_init
                ≡ lex.pl_init)
      go true = (refl, refl, λ tag x d. refl, refl)
      go false = (refl, refl, λ tag x d. refl, refl)

  -- A container that changes, with the set of its tag in memory.
  module _ (lex : Lexicon S) (sound : IsSound S lex) (a : ℕ) (c c' : Container S)
      (pls : PostingListSet S) (at : lookup a lex.containers ≡ some c)
      (here : lookup c.tag lex.pl_set_cache ≡ some a) (tagged : c'.tag ≡ c.tag)
      (in_memory : c'.pls ≡ some pls)
      (kept : IsConsistent S lex.pl_init pls × (c'.size ≡ pls.size)) where
    stored_at :
        (b : ℕ)
        → lookup b (store S lex a c').containers
          ≡ (if a == b then some c' else lookup b lex.containers)
    stored_at b = lookup-insert a b c' lex.containers

    IsRecent-again :
        (l : List ℕ)
        → All (IsRecent S lex.containers lex.pl_set_cache) l
        → All (IsRecent S (store S lex a c').containers lex.pl_set_cache) l
    IsRecent-again [] r = tt
    IsRecent-again (b ∷ l) ((e, p, f, m, h), rs) = elim (Bool-cases (a == b)) [
      | inl same ↦ (
        (
          c',
          pls,
          stored_at b ∙ rw same refl,
          in_memory,
          ap (λ t. lookup t lex.pl_set_cache) tagged ∙ here ∙ ap some ((==_iff a b).0 same),
        ),
        IsRecent-again l rs,
      )
      | inr other ↦ ((e, p, stored_at b ∙ rw other f, m, h), IsRecent-again l rs)
    ]

    pub store-IsSound : IsSound S (store S lex a c')
    store-IsSound = record {
      maker = sound.maker;
      distinct = sound.distinct;
      cached = λ tag b e. cached tag b e (sound.cached tag b e);
      recent = IsRecent-again lex.lru_cache sound.recent;
      apart = sound.apart;
      fresh = λ b e f. fresh b e (sym (stored_at b) ∙ f);
      owned = λ b e f. owned b e (sym (stored_at b) ∙ f);
    }
      where
        owned :
            (b : ℕ) (e : Container S)
            → (if a == b then some c' else lookup b lex.containers) ≡ some e
            → lookup e.tag lex.pl_set_cache ≡ some b
        owned b e f = elim (Bool-cases (a == b)) [
          | inl same ↦
              let out : c' ≡ e = some-injective (rw same at f) in
              ap (λ (k : Container S). lookup k.tag lex.pl_set_cache) (sym out)
              ∙ ap (λ t. lookup t lex.pl_set_cache) tagged
              ∙ here
              ∙ ap some ((==_iff a b).0 same)
          | inr other ↦ sound.owned b e (rw other at f)
        ]

        fresh :
            (b : ℕ) (e : Container S)
            → (if a == b then some c' else lookup b lex.containers) ≡ some e
            → b < lex.next
        fresh b e f = elim (Bool-cases (a == b)) [
          | inl same ↦ subst (λ i. i < lex.next) ((==_iff a b).0 same) (sound.fresh a c at)
          | inr other ↦ sound.fresh b e (rw other at f)
        ]

        cached :
            (tag : Text) (b : ℕ)
            → lookup tag lex.pl_set_cache ≡ some b
            → ((e : Container S) × (lookup b lex.containers ≡ some e)
                × (e.tag ≡ tag)
                × IsKept S lex.pl_init lex.disk e.tag e.size e.pls)
            → (e : Container S) × (lookup b (store S lex a c').containers ≡ some e)
              × (e.tag ≡ tag)
              × IsKept S lex.pl_init lex.disk e.tag e.size e.pls
        cached tag b h (e, f, t, k) = elim (Bool-cases (a == b)) [
          | inl same ↦
              let f' : lookup a lex.containers ≡ some e =
                ap (λ i. lookup i lex.containers) ((==_iff a b).0 same) ∙ f in
              (
                c',
                stored_at b ∙ rw same refl,
                tagged ∙ ground (arith, at, f', t),
                subst (IsKept S lex.pl_init lex.disk c'.tag c'.size) (sym in_memory) kept,
              )
          | inr other ↦ (e, stored_at b ∙ rw other f, t, k)
        ]

    -- The entries of the other tags stay.
    pub store-entries :
        (tag x : Text) (d : ℕ)
        → entry_at S (store S lex a c') tag x d
          ≡ (if text_eq c.tag tag then view S pls x d else entry_at S lex tag x d)
    store-entries tag x d = elim (Bool-cases (text_eq c.tag tag)) [
      | inl same ↦ rw same (
          entry_at-contents S (store S lex a c') tag x d a c'
            (ap (λ t. lookup t lex.pl_set_cache) (sym ((text_eq_iff c.tag tag).0 same)) ∙ here)
            (stored_at a ∙ rw ((==_iff a a).1 refl) refl)
          ∙ ap (λ o. contents S lex.pl_init lex.disk c'.tag o x d) in_memory)
      | inr other ↦ rw other (elim (Option-cases (lookup tag lex.pl_set_cache)) [
        | inl new ↦ ground (arith, new)
        | inr (b, e) ↦
            let (c0, f, t, k) = sound.cached tag b e in
            entry_at-contents S (store S lex a c') tag x d b c0 e
              (stored_at b ∙ rw (apart_from b c0 f t other) f)
            ∙ sym (entry_at-contents S lex tag x d b c0 e f)
      ])
    ]
      where
        apart_from :
            (b : ℕ) (c0 : Container S)
            → lookup b lex.containers ≡ some c0
            → c0.tag ≡ tag
            → text_eq c.tag tag ≡ false
            → (a == b) ≡ false
        apart_from b c0 f t other = elim (Bool-cases (a == b)) [
          | inl same ↦
              let f' : lookup a lex.containers ≡ some c0 =
                ap (λ i. lookup i lex.containers) ((==_iff a b).0 same) ∙ f in
              ground (arith, at, f', t, text_eq_iff c.tag tag)
          | inr no_match ↦ no_match
        ]
