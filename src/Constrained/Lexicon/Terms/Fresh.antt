-- ===== src/Constrained/Lexicon/Terms/Fresh.antt =====
-- A lexicon without sets.
use irengine.Common.{
  none-some, none, text_key, lookup, [], ℕ, zero, suc, ◌≡◌, refl, sym, ◌∙◌, ℤ, pos, negsuc, Text,
  Dict,
}
use irengine.Indexer.SkipMap.{SkipMap}
use irengine.Indexer.Entry.{Entry}
use irengine.Indexer.PostingList.{PostingList}
use irengine.Indexer.TermMap.{TermMap}
use irengine.Constrained.PostingListSet.Restored.{IsMaker}
use irengine.Constrained.Lexicon.{Lexicon, set_max_load, init_lexicon, new_lexicon}
use irengine.Constrained.Lexicon.Memory.Kept.{IsSound}
use irengine.Constrained.Lexicon.Terms.{PersistentTerm}
use irengine.Constrained.Lexicon.Terms.Entries.{IsIndexed}

module _ (S : SkipMap Entry) where
  pub set_max_load-fields :
      (lex : Lexicon S) (z : ℤ)
      → set_max_load S lex z
        ≡ record lex { max_load = z; per_pls_load = (set_max_load S lex z).per_pls_load }
  unfolding set_max_load
  set_max_load-fields lex (pos zero) = refl
  set_max_load-fields lex (pos (suc n)) = refl
  set_max_load-fields lex (negsuc n) = refl

  -- A lexicon without sets, in a directory with some files.
  abbrev pub at_start : PostingList S → Dict Text Text → ℤ → ℕ → Lexicon S
  at_start init disk limit per = record (init_lexicon S init) {
    disk = disk;
    max_load = limit;
    per_pls_load = per;
  }

  pub at_start-IsSound :
      (init : PostingList S) (disk : Dict Text Text) (limit : ℤ) (per : ℕ)
      → IsMaker S init
      → IsSound S (at_start init disk limit per)
  at_start-IsSound init disk limit per m = record {
    maker = m;
    distinct = tt;
    cached = λ tag a h. absurd (none-some h);
    recent = tt;
    apart = tt;
    fresh = λ a c h. absurd (none-some h);
    owned = λ a c h. absurd (none-some h);
  }

  module _ (T : TermMap PersistentTerm) where
    open T use {empty, find-empty}

    pub at_start-IsIndexed :
        (init : PostingList S) (disk : Dict Text Text) (limit : ℤ) (per : ℕ)
        → IsIndexed S T (at_start init disk limit per) empty
    at_start-IsIndexed init disk limit per = record {
      held = λ x t h. absurd (none-some (sym (find-empty x) ∙ h));
      known = λ tag x d e h. absurd (none-some h);
    }

    -- `NewLexicon` makes a sound lexicon without files.
    pub new_lexicon_lem :
        (init : PostingList S) (limit : ℤ)
        → IsMaker S init
        → IsSound S (new_lexicon S init limit)
          × IsIndexed S T (new_lexicon S init limit) empty
          × ((new_lexicon S init limit).pl_init ≡ init)
          × ((new_lexicon S init limit).max_load ≡ limit)
          × ((t : Text) → lookup t (new_lexicon S init limit).disk ≡ none)
    unfolding new_lexicon
    new_lexicon_lem init limit m =
        let per = (set_max_load S (init_lexicon S init) limit).per_pls_load in
        rw (set_max_load-fields (init_lexicon S init) limit) (
          at_start-IsSound init [] limit per m,
          at_start-IsIndexed init [] limit per,
          refl,
          refl,
          λ t. refl,
        )
