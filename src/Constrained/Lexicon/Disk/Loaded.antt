-- ===== src/Constrained/Lexicon/Disk/Loaded.antt =====
-- `LoadFromDisk` takes the files of the sets into a lexicon.
use irengine.Common.{
  none-some, ℕ, ◌≡◌, refl, sym, ap, ◌∙◌, inl, inr, if◌then◌else◌, Bool, true, false, Option, none,
  some, Text, text_eq, text_key, lookup, lookup-insert,
}
use irengine.Indexer.SkipMap.{SkipMap}
use irengine.Indexer.Entry.{Entry}
use irengine.Indexer.TermMap.{TermMap}
use irengine.Constrained.PostingListSet.{PostingListSet, new_posting_list_set, load}
use irengine.Constrained.PostingListSet.Reload.{view}
use irengine.Constrained.PostingListSet.Consistent.{IsConsistent}
use irengine.Constrained.Lexicon.{LoadTests, Lexicon}
use irengine.Constrained.Lexicon.Memory.{add_pls, evict}
use irengine.Constrained.Lexicon.Memory.Keeps.{evict-Keeps, add_pls-new, add_pls-Keeps}
use irengine.Constrained.Lexicon.Memory.Kept.{entry_at, IsSound}
use irengine.Constrained.Lexicon.Memory.Round.{IsEvicted}
use irengine.Constrained.Lexicon.Memory.Evicted.{evict_lem}
use irengine.Constrained.Lexicon.Memory.Added.{add_pls-IsSound, add_pls-entries}
use irengine.Constrained.Lexicon.Terms.{PersistentTerm}
use irengine.Constrained.Lexicon.Disk.{insert_terms, load_set}
use irengine.Constrained.Lexicon.Disk.Filed.{HasFile}

module _ (S : SkipMap Entry) where
  -- A set with the entries `v` has come in under a new tag.
  pub record HasLoaded (lex : Lexicon S) (tag : Text) (v : Text → ℕ → Option Entry)
      (lex' : Lexicon S) : Type 0 where
    pub sound : IsSound S lex'
    pub init : lex'.pl_init ≡ lex.pl_init
    pub limits : (lex'.max_load ≡ lex.max_load) × (lex'.per_pls_load ≡ lex.per_pls_load)
    pub entries :
        (t x : Text) (d : ℕ)
        → entry_at S lex' t x d ≡ (if text_eq tag t then v x d else entry_at S lex t x d)
    pub keeps :
        (t : Text)
        → lookup t lex'.pl_set_cache ≡ none
        → (text_eq tag t ≡ false)
          × (lookup t lex.pl_set_cache ≡ none)
          × (lookup t lex'.disk ≡ lookup t lex.disk)
    pub others :
        (t : Text)
        → text_eq tag t ≡ false
        → lookup t lex.pl_set_cache ≡ none
        → (lookup t lex'.pl_set_cache ≡ none) × (lookup t lex'.disk ≡ lookup t lex.disk)

  module _ (F : LoadTests) (can_create : Text → Bool) (creates : (t : Text) → can_create t ≡ true)
      (T : TermMap PersistentTerm) where
    open T use {Trie}

    load_set-run :
        (lex lex' : Lexicon S) (trie : Trie) (tag text : Text) (pls : PostingListSet S)
        → lookup tag lex.disk ≡ some text
        → load S (new_posting_list_set S lex.pl_init) text ≡ some pls
        → evict S F can_create (add_pls S lex tag pls) ≡ some lex'
        → load_set S F can_create T lex trie tag
          ≡ some (lex', insert_terms S T tag pls.list_map trie)
    unfolding load_set
    load_set-run lex lex' trie tag text pls file reads runs = rw (file, reads, runs, load_set) refl

    -- The set that a round reads, with what it has made of the lexicon and of the trie.
    abbrev pub LoadsSet :
        Lexicon S → Trie → Text → (Text → ℕ → Option Entry) → Option (Lexicon S × Trie) → Type 0
    LoadsSet lex trie tag v o =
        (lex' : Lexicon S) × (text : Text) × (pls : PostingListSet S) × (o
          ≡ some (lex', insert_terms S T tag pls.list_map trie))
        × HasLoaded lex tag v lex'
        × (load S (new_posting_list_set S lex.pl_init) text ≡ some pls)
        × IsConsistent S lex.pl_init pls
        × ((x : Text) (d : ℕ) → view S pls x d ≡ v x d)

    not_added :
        (lex : Lexicon S) (tag t : Text) (pls : PostingListSet S)
        → text_eq tag t ≡ false
        → lookup t lex.pl_set_cache ≡ none
        → lookup t (add_pls S lex tag pls).pl_set_cache ≡ none
    unfolding add_pls
    not_added lex tag t pls other absent = lookup-insert tag t _ lex.pl_set_cache ∙ rw other absent

    other_files :
        (lex lex' : Lexicon S) (tag t : Text) (pls : PostingListSet S)
        → IsEvicted S (add_pls S lex tag pls) lex'
        → lookup t (add_pls S lex tag pls).pl_set_cache ≡ none
        → lookup t lex'.disk ≡ lookup t lex.disk
    unfolding add_pls
    other_files lex lex' tag t pls e still = elim (e.files t) [
      | inl same ↦ same
      | inr (a, c, p, here, at, loaded, file) ↦ absurd (none-some (sym still ∙ here))
    ]

    kept :
        (lex lex' : Lexicon S) (tag t : Text) (pls : PostingListSet S)
        → IsEvicted S (add_pls S lex tag pls) lex'
        → lookup t lex'.pl_set_cache ≡ none
        → (text_eq tag t ≡ false)
          × (lookup t lex.pl_set_cache ≡ none)
          × (lookup t lex'.disk ≡ lookup t lex.disk)
    kept lex lex' tag t pls e absent =
        let (still, same) = (evict-Keeps S (add_pls S lex tag pls) lex' e).2 t absent in
        let (other, new) = add_pls-new S lex tag t pls still in
        (other, new, same ∙ ((add_pls-Keeps S lex tag pls).2 t still).1)

    pub load_set_lem :
        (lex : Lexicon S) (trie : Trie) (tag : Text) (v : Text → ℕ → Option Entry)
        → IsSound S lex
        → lookup tag lex.pl_set_cache ≡ none
        → HasFile S lex.pl_init lex.disk tag v
        → LoadsSet lex trie tag v (load_set S F can_create T lex trie tag)
    load_set_lem lex trie tag v sound new (text, pls, file, reads, ok, views) =
        let (lex', older, runs, order, within, s, e) =
          evict_lem S F can_create creates (add_pls S lex tag pls)
            (add_pls-IsSound S lex sound tag pls new ok) in
        (
          lex',
          text,
          pls,
          load_set-run lex lex' trie tag text pls file reads runs,
          record {
            sound = s;
            init = unfold add_pls in e.init;
            limits = unfold add_pls in e.limits;
            entries = λ t x d.
                e.entries t x d
                ∙ add_pls-entries S lex sound tag pls new ok t x d
                ∙ ap (λ o. if text_eq tag t then o else entry_at S lex t x d) (views x d);
            keeps = λ t absent. kept lex lex' tag t pls e absent;
            others = λ t other absent.
                let still = not_added lex tag t pls other absent in
                (ap (lookup t) e.tags ∙ still, other_files lex lex' tag t pls e still);
          },
          reads,
          ok,
          views,
        )
