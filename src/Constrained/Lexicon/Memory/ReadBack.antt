-- ===== src/Constrained/Lexicon/Memory/ReadBack.antt =====
-- The switch of `RetrievePLS` where the set is on disk.
use irengine.Common.{
  ℕ, ◌+◌, ==_iff, ◌≡◌, ◌≢◌, refl, ap, subst, ◌∙◌, Bool, true, none, some, List, [], ◌∷◌, ◌++◌, All,
  Text, nat_key, text_key, lookup, lookup-insert,
}
use irengine.Indexer.SkipMap.{SkipMap}
use irengine.Indexer.Entry.{Entry}
use irengine.Constrained.PostingListSet.{PostingListSet, new_posting_list_set, load}
use irengine.Constrained.PostingListSet.Consistent.{IsConsistent}
use irengine.Constrained.Lexicon.{LoadTests, Container, Lexicon, loaded_at, send}
use irengine.Constrained.Lexicon.Memory.{store, evict, read_pls}
use irengine.Constrained.Lexicon.Memory.Keeps.{Keeps, Keeps-trans, evict-Keeps}
use irengine.Constrained.Lexicon.Memory.Kept.{entry_at, IsKept, IsSound}
use irengine.Constrained.Lexicon.Memory.Evicted.{evict_lem}
use irengine.Constrained.Lexicon.Memory.Reread.{store-reread}
use irengine.Constrained.Lexicon.Memory.Changed.{store-IsSound}
use irengine.Constrained.Lexicon.Memory.Settles.{stats-IsSound, send-IsSound, not_recent, Settles}

pub All-rest : (a : ℕ) (xs ys : List ℕ) → All (λ b. b ≢ a) (xs ++ ys) → All (λ b. b ≢ a) ys
All-rest a [] ys h = h
All-rest a (x ∷ xs) ys (p, h) = All-rest a xs ys h

module _ (S : SkipMap Entry) where
  module _ (F : LoadTests) (can_create : Text → Bool) (creates : (t : Text) → can_create t ≡ true)
      (lex : Lexicon S) (sound : IsSound S lex) (tag : Text) where
    module _ (a : ℕ) (c : Container S) (here : lookup tag lex.pl_set_cache ≡ some a)
        (at : lookup a lex.containers ≡ some c) where
      pub same_container : c.tag ≡ tag × IsKept S lex.pl_init lex.disk c.tag c.size c.pls
      same_container =
          let (c0, at0, tagged, k) = sound.cached tag a here in
          let same : c0 ≡ c = cc in
          subst
            (λ (e : Container S). (e.tag ≡ tag) × IsKept S lex.pl_init lex.disk e.tag e.size e.pls)
            same (tagged, k)

      pub own_tag : lookup c.tag lex.pl_set_cache ≡ some a
      own_tag = ap (λ t. lookup t lex.pl_set_cache) same_container.0 ∙ here

      reread : PostingListSet S → Lexicon S
      reread pls =
          record (store S lex a
            (record c { pls = some pls; size = pls.size; loads = c.loads + 1 })) {
              stats = record lex.stats { load_count = lex.stats.load_count + 1 };
            }

      read_pls-run :
          (text : Text) (pls : PostingListSet S) (lex' : Lexicon S)
          → lookup c.tag lex.disk ≡ some text
          → load S (new_posting_list_set S lex.pl_init) text ≡ some pls
          → evict S F can_create (send S (reread pls) a) ≡ some lex'
          → read_pls S F can_create lex a c ≡ some (lex', a, c.tag)
      unfolding read_pls reread
      read_pls-run text pls lex' file reads runs = rw (file, reads, runs, read_pls) refl

      reread-entries :
          (text : Text) (pls : PostingListSet S)
          → c.pls ≡ none
          → lookup c.tag lex.disk ≡ some text
          → load S (new_posting_list_set S lex.pl_init) text ≡ some pls
          → IsConsistent S lex.pl_init pls
          → (t x : Text) (d : ℕ) → entry_at S (send S (reread pls) a) t x d ≡ entry_at S lex t x d
      unfolding send reread
      reread-entries text pls gone file reads ok =
          store-reread S lex sound a c
            (record c { pls = some pls; size = pls.size; loads = c.loads + 1 }) text pls at own_tag
            gone refl refl file reads (ok, refl)

      reread-Keeps : (pls : PostingListSet S) → Keeps S lex (send S (reread pls) a)
      unfolding send reread
      reread-Keeps pls = (refl, refl, λ t h. (h, refl))

      read_pls-known :
          (text : Text) (pls : PostingListSet S)
          → c.pls ≡ none
          → lookup c.tag lex.disk ≡ some text
          → load S (new_posting_list_set S lex.pl_init) text ≡ some pls
          → IsConsistent S lex.pl_init pls
          → Settles S lex c.tag (read_pls S F can_create lex a c)
      read_pls-known text pls gone file reads ok =
          let c' : Container S = record c {
            pls = some pls;
            size = pls.size;
            loads = c.loads + 1;
          } in
          let stored = store-IsSound S lex sound a c c' pls at own_tag refl refl (ok, refl) in
          let sent : IsSound S (send S (reread pls) a) =
            unfold reread in
            send-IsSound S (reread pls) a (stats-IsSound S (store S lex a c') _ stored) in
          let (lex', older, runs, order, within, s, e) =
            evict_lem S F can_create creates (send S (reread pls) a) sent in
          let stays =
            e.stays a
              (unfold send reread in not_recent S lex a c lex.lru_cache at gone sound.recent) in
          (
            lex',
            a,
            pls,
            read_pls-run text pls lex' file reads runs,
            ap (λ o. elim o [ none ↦ none | some c0 ↦ c0.pls ]) stays
                ∙ unfold send reread in
                  ap (λ o. elim o [ none ↦ none | some c0 ↦ c0.pls ]) {y = some c'}
                    (lookup-insert a a c' lex.containers ∙ rw ((==_iff a a).1 refl) refl),
            ap (lookup c.tag) e.tags ∙ unfold send reread in own_tag,
            s,
            Keeps-trans S lex (send S (reread pls) a) lex' (reread-Keeps pls)
                (evict-Keeps S (send S (reread pls) a) lex' e),
            λ t x d. e.entries t x d ∙ reread-entries text pls gone file reads ok t x d,
          )

      -- The set that is read does not come into the order of the sets in memory.
      pub read_pls-unlisted :
          c.pls ≡ none
          → (lex' : Lexicon S) × (pls : PostingListSet S) × (read_pls S F can_create lex a c
              ≡ some (lex', a, c.tag))
            × (loaded_at S lex' a ≡ some pls)
            × All (λ b. b ≢ a) lex'.lru_cache
            × IsSound S lex'
      read_pls-unlisted gone =
          let (text, pls, file, reads, ok, sized) =
            subst (IsKept S lex.pl_init lex.disk c.tag c.size) gone same_container.1 in
          let c' : Container S = record c {
            pls = some pls;
            size = pls.size;
            loads = c.loads + 1;
          } in
          let stored = store-IsSound S lex sound a c c' pls at own_tag refl refl (ok, refl) in
          let sent : IsSound S (send S (reread pls) a) =
            unfold reread in
            send-IsSound S (reread pls) a (stats-IsSound S (store S lex a c') _ stored) in
          let (lex', older, runs, order, within, s, e) =
            evict_lem S F can_create creates (send S (reread pls) a) sent in
          let listed : All (λ b. b ≢ a) (send S (reread pls) a).lru_cache =
            unfold send reread in not_recent S lex a c lex.lru_cache at gone sound.recent in
          let stays = e.stays a listed in
          (
            lex',
            pls,
            read_pls-run text pls lex' file reads runs,
            ap (λ o. elim o [ none ↦ none | some c0 ↦ c0.pls ]) stays
                ∙ unfold send reread in
                  ap (λ o. elim o [ none ↦ none | some c0 ↦ c0.pls ]) {y = some c'}
                    (lookup-insert a a c' lex.containers ∙ rw ((==_iff a a).1 refl) refl),
            All-rest a older lex'.lru_cache (subst (All (λ b. b ≢ a)) order listed),
            s,
          )

      pub read_pls-Settles : c.pls ≡ none → Settles S lex tag (read_pls S F can_create lex a c)
      read_pls-Settles gone =
          let (text, pls, file, reads, ok, sized) =
            subst (IsKept S lex.pl_init lex.disk c.tag c.size) gone same_container.1 in
          subst (λ t. Settles S lex t (read_pls S F can_create lex a c)) same_container.0
            (read_pls-known text pls gone file reads ok)
