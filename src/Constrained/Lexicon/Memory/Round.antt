-- ===== src/Constrained/Lexicon/Memory/Round.antt =====
-- A round of `evict`: the oldest set is written to its file and leaves the memory.
use irengine.Common.{
  some-injective, ℕ, ◌<◌, ◌==◌, ==_iff, ◌≡◌, ◌≢◌, refl, sym, ap, subst, ◌∙◌, ◌⊎◌, inl, inr,
  if◌then◌else◌, Bool, false, true, Option, none, some, List, ◌∷◌, arith, All, Text, text_eq,
  text_eq_iff, Dict, nat_key, text_key, lookup, insert, lookup-insert, Bool-cases, Option-cases,
}
use irengine.Indexer.SkipMap.{SkipMap}
use irengine.Indexer.Entry.{Entry}
use irengine.Indexer.PostingList.{PostingList}
use irengine.Constrained.PostingListSet.{PostingListSet, new_posting_list_set, load, dump}
use irengine.Constrained.PostingListSet.Reload.{view}
use irengine.Constrained.PostingListSet.Consistent.{IsConsistent}
use irengine.Constrained.PostingListSet.Restored.{load-dump-IsConsistent}
use irengine.Constrained.PostingListSet.Sized.{load-dump_size}
use irengine.Constrained.Lexicon.{Container, Lexicon, send}
use irengine.Constrained.Lexicon.Memory.{dump_pls, swapped_out, drop_oldest, evict_oldest}
use irengine.Constrained.Lexicon.Memory.Kept.{
  AreApart, contents, entry_at, IsKept, IsRecent, IsSound, entry_at-contents, contents-insert,
  IsKept-insert, AllRecent-insert,
}

module _ (S : SkipMap Entry) where
  -- What evicting does not change, and what becomes of the containers.
  pub record IsEvicted (lex lex' : Lexicon S) : Type 0 where
    pub tags : lex'.pl_set_cache ≡ lex.pl_set_cache
    pub next : lex'.next ≡ lex.next
    pub init : lex'.pl_init ≡ lex.pl_init
    pub limits : (lex'.max_load ≡ lex.max_load) × (lex'.per_pls_load ≡ lex.per_pls_load)
    pub entries : (tag x : Text) (d : ℕ) → entry_at S lex' tag x d ≡ entry_at S lex tag x d
    pub stays :
        (a : ℕ)
        → All (λ b. b ≢ a) lex.lru_cache
        → lookup a lex'.containers ≡ lookup a lex.containers
    pub fate :
        (a : ℕ) (c : Container S)
        → lookup a lex.containers ≡ some c
        → (lookup a lex'.containers ≡ some c)
          ⊎ ((c' : Container S) × (lookup a lex'.containers ≡ some c')
              × (c'.tag ≡ c.tag)
              × (c'.pls ≡ none))
    pub files :
        (tag : Text)
        → (lookup tag lex'.disk ≡ lookup tag lex.disk)
          ⊎ ((a : ℕ) × (c : Container S) × (pls : PostingListSet S) × (lookup tag lex.pl_set_cache
                ≡ some a)
              × (lookup a lex.containers ≡ some c)
              × (c.pls ≡ some pls)
              × (lookup tag lex'.disk ≡ some (dump S pls)))

  pub contents-read :
      (init : PostingList S) (disk : Dict Text Text) (tag x : Text) (d : ℕ) (text : Text)
      (r : PostingListSet S)
      → lookup tag disk ≡ some text
      → load S (new_posting_list_set S init) text ≡ some r
      → contents S init disk tag none x d ≡ view S r x d
  contents-read init disk tag x d text r e f = ground arith

  module _ (can_create : Text → Bool) (creates : (t : Text) → can_create t ≡ true) where
    -- A round for a container whose set is in memory.
    module _ (lex : Lexicon S) (a : ℕ) (rest : List ℕ) (order : lex.lru_cache ≡ a ∷ rest)
        (sound : IsSound S lex) (c : Container S) (pls : PostingListSet S)
        (at : lookup a lex.containers ≡ some c) (in_memory : c.pls ≡ some pls)
        (here : lookup c.tag lex.pl_set_cache ≡ some a) where
      dumped : Lexicon S
      dumped = record lex { disk = insert c.tag (dump S pls) lex.disk }

      pub after : Lexicon S
      unfolding dumped
      after = drop_oldest S dumped a rest c

      kept : IsConsistent S lex.pl_init pls × (c.size ≡ pls.size)
      kept =
          let (c', at', tagged, k) = sound.cached c.tag a here in
          let same : c' ≡ c = ground arith in
          subst (λ o. IsKept S lex.pl_init lex.disk c.tag c.size o) in_memory
            (subst (λ e. IsKept S lex.pl_init lex.disk e.tag e.size e.pls) same k)

      pub evict_oldest-after : evict_oldest S can_create lex a rest ≡ some after
      unfolding evict_oldest dump_pls after dumped
      evict_oldest-after = ground (arith, creates c.tag, kept.1)

      pub after-order : after.lru_cache ≡ rest
      unfolding after drop_oldest
      after-order = refl

      other_tag :
          (tag : Text) (b : ℕ)
          → lookup tag lex.pl_set_cache ≡ some b
          → a ≢ b
          → text_eq c.tag tag ≡ false
      other_tag tag b e n = elim (Bool-cases (text_eq c.tag tag)) [
        | inl same ↦
            let tags : c.tag ≡ tag = (text_eq_iff c.tag tag).0 same in
            absurd (n (some-injective (sym here ∙ ap (λ t. lookup t lex.pl_set_cache) tags ∙ e)))
        | inr other ↦ other
      ]

      read_back :
          (r : PostingListSet S) × (load S (new_posting_list_set S lex.pl_init) (dump S pls)
            ≡ some r)
          × IsConsistent S lex.pl_init r
          × ((x : Text) (d : ℕ) → view S r x d ≡ view S pls x d)
      read_back = load-dump-IsConsistent S lex.pl_init pls sound.maker kept.0

      after-cached :
          (tag : Text) (b : ℕ)
          → lookup tag lex.pl_set_cache ≡ some b
          → (c' : Container S) × (lookup b after.containers ≡ some c')
            × (c'.tag ≡ tag)
            × IsKept S lex.pl_init after.disk c'.tag c'.size c'.pls
            × ((x : Text) (d : ℕ)
                → contents S lex.pl_init after.disk c'.tag c'.pls x d ≡ entry_at S lex tag x d)
      unfolding after drop_oldest dumped send
      after-cached tag b e =
          let (c0, at0, tagged, k) = sound.cached tag b e in
          elim (Bool-cases (a == b)) [
            | inr other ↦
                let n = other_tag tag b e (ground (arith, ==_iff a b)) in
                let n' : text_eq c.tag c0.tag ≡ false = ap (text_eq c.tag) tagged ∙ n in
                (
                  c0,
                  lookup-insert a b (swapped_out S c) lex.containers ∙ rw other at0,
                  tagged,
                  IsKept-insert S lex.pl_init lex.disk c.tag (dump S pls) c0.tag c0.size c0.pls n'
                      k,
                  λ x d.
                      contents-insert S lex.pl_init lex.disk c.tag (dump S pls) c0.tag x d c0.pls n'
                      ∙ sym (entry_at-contents S lex tag x d b c0 e at0),
                )
            | inl same ↦
                let at' : lookup b lex.containers ≡ some c =
                  ap (λ i. lookup i lex.containers) (sym ((==_iff a b).0 same)) ∙ at in
                let c-tag : c.tag ≡ tag = ground (arith, tagged, at0, at') in
                let (r, reads, ok, views) = read_back in
                let file : lookup c.tag (insert c.tag (dump S pls) lex.disk) ≡ some (dump S pls) =
                  lookup-insert c.tag c.tag (dump S pls) lex.disk
                  ∙ rw ((text_eq_iff c.tag c.tag).1 refl) refl in
                (
                  swapped_out S c,
                  lookup-insert a b (swapped_out S c) lex.containers ∙ rw same refl,
                  c-tag,
                  (
                    dump S pls,
                    r,
                    file,
                    reads,
                    ok,
                    kept.1 ∙ load-dump_size S lex.pl_init pls r kept.0 reads,
                  ),
                  λ x d.
                      contents-read lex.pl_init (insert c.tag (dump S pls) lex.disk) c.tag x d
                        (dump S pls) r file reads
                      ∙ views x d
                      ∙ sym (ap (λ o. contents S lex.pl_init lex.disk c.tag o x d) in_memory)
                      ∙ sym (entry_at-contents S lex tag x d b c e at'),
                )
          ]

      after-IsRecent :
          AreApart lex.lru_cache
          → All (IsRecent S lex.containers lex.pl_set_cache) lex.lru_cache
          → All (IsRecent S after.containers lex.pl_set_cache) rest × AreApart rest
      unfolding after drop_oldest dumped send
      after-IsRecent apart recent =
          let (n, ns) = subst AreApart order apart in
          let (r, rs) = subst (All (IsRecent S lex.containers lex.pl_set_cache)) order recent in
          (AllRecent-insert S lex.containers lex.pl_set_cache a (swapped_out S c) rest n rs, ns)

      pub after-IsSound : IsSound S after
      unfolding after drop_oldest dumped send
      after-IsSound =
          let (rs, ns) = after-IsRecent sound.apart sound.recent in
          record {
            maker = sound.maker;
            distinct = sound.distinct;
            cached = λ tag b e.
                let (c', at', tagged, k, views) = after-cached tag b e in (c', at', tagged, k);
            recent = rs;
            apart = ns;
            fresh =
                λ b c' e. fresh b c' (sym (lookup-insert a b (swapped_out S c) lex.containers) ∙ e);
            owned =
                λ b c' e. owned b c' (sym (lookup-insert a b (swapped_out S c) lex.containers) ∙ e);
          }
        where
          owned :
              (b : ℕ) (c' : Container S)
              → (if a == b then some (swapped_out S c) else lookup b lex.containers) ≡ some c'
              → lookup c'.tag lex.pl_set_cache ≡ some b
          owned b c' e = elim (Bool-cases (a == b)) [
            | inl same ↦
                let out : swapped_out S c ≡ c' = some-injective (rw same at e) in
                ap (λ (k : Container S). lookup k.tag lex.pl_set_cache) (sym out)
                ∙ here
                ∙ ap some ((==_iff a b).0 same)
            | inr other ↦ sound.owned b c' (rw other at e)
          ]

          fresh :
              (b : ℕ) (c' : Container S)
              → (if a == b then some (swapped_out S c) else lookup b lex.containers) ≡ some c'
              → b < lex.next
          fresh b c' e = elim (Bool-cases (a == b)) [
            | inl same ↦ subst (λ i. i < lex.next) ((==_iff a b).0 same) (sound.fresh a c at)
            | inr other ↦ sound.fresh b c' (rw other at e)
          ]

      pub after-IsEvicted : IsEvicted lex after
      unfolding after drop_oldest dumped send
      after-IsEvicted = record {
        tags = refl;
        next = refl;
        init = refl;
        limits = (refl, refl);
        entries = λ tag x d. elim (Option-cases (lookup tag lex.pl_set_cache)) [
          | inl new ↦ ground (arith, new)
          | inr (b, e) ↦
              let (c', at', tagged, k, views) = after-cached tag b e in
              entry_at-contents S after tag x d b c' e at' ∙ views x d
        ];
        stays = λ b n.
            let n' : a ≢ b = (subst (All (λ i. i ≢ b)) order n).0 in
            lookup-insert a b (swapped_out S c) lex.containers ∙ ground (arith, ==_iff a b);
        fate = λ b c' e. elim (Bool-cases (a == b)) [
          | inl same ↦ inr (
            swapped_out S c,
            lookup-insert a b (swapped_out S c) lex.containers ∙ rw same refl,
            ap (λ (o : Container S). o.tag)
                (same_container (ap (λ i. lookup i lex.containers) (sym ((==_iff a b).0 same)) ∙ at)
                  e),
            refl,
          )
          | inr other ↦ inl (lookup-insert a b (swapped_out S c) lex.containers ∙ rw other e)
        ];
        files = λ tag. elim (Bool-cases (text_eq c.tag tag)) [
          | inl same ↦ inr (
            a,
            c,
            pls,
            ap (λ t. lookup t lex.pl_set_cache) (sym ((text_eq_iff c.tag tag).0 same)) ∙ here,
            at,
            in_memory,
            lookup-insert c.tag tag (dump S pls) lex.disk ∙ rw same refl,
          )
          | inr other ↦ inl (lookup-insert c.tag tag (dump S pls) lex.disk ∙ rw other refl)
        ];
      }
        where
          same_container :
              {o : Option (Container S)} {i j : Container S} → o ≡ some i → o ≡ some j → i ≡ j
          same_container e f = cc
