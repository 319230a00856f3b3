-- ===== src/Tests/Disk.antt =====
-- The lexicon of bounded memory that is saved and loaded.
use irengine.Common.{
  ℕ, suc, none, ℕ, if◌then◌else◌, ◌≡◌, ◌≢◌, refl, ◌∙◌, true, false, none, some, List, [], ◌∷◌, All,
  arith, Text, text_eq, text_eq_iff, Dict, text_key, lookup, Bool-cases, inl, inr,
}
use irengine.Tests.Sets.{S, empty_list}
use irengine.Tests.Memory.{full, strict, can_create, full-IsSound}
use irengine.Tests.Terms.{T, trie, full-IsIndexed}
use irengine.Indexer.Entry.{new_positional_entry}
use irengine.Indexer.PostingList.{create_positional}
use irengine.Constrained.Lexicon.{Lexicon, set_max_load}
use irengine.Constrained.Lexicon.Metadata.{read_metadata, write_metadata}
use irengine.Constrained.Lexicon.Metadata.RoundTrip.{named_init, read_metadata-write_metadata}
use irengine.Constrained.Lexicon.Disk.{save_to_disk, load_from_disk}
use irengine.Constrained.Lexicon.Disk.Filed.{IsFiled, IsSaved}
use irengine.Constrained.Lexicon.Disk.Saved.{save_to_disk_lem}
use irengine.Constrained.Lexicon.Disk.Sets.{AreApartTexts}
use irengine.Constrained.Lexicon.Disk.RoundTrip.{IsGlob, Reloads, load_from_disk-save_to_disk}

-- The keys of a dictionary, each one once.
abbrev without : Text → List Text → List Text
without t [] = []
without t (u ∷ l) = let rest = without t l in if text_eq t u then rest else u ∷ rest

abbrev pub glob : Dict Text Text → List Text
glob [] = []
glob ((t, v) ∷ m) = t ∷ without t (glob m)

All-without : (P : Text → Type 0) (t : Text) (l : List Text) → All P l → All P (without t l)
All-without P t [] h = tt
All-without P t (u ∷ l) (p, h) = elim (Bool-cases (text_eq t u)) [
  | inl same ↦ rw same (All-without P t l h)
  | inr other ↦ rw other (p, All-without P t l h)
]

without-apart : (t : Text) (l : List Text) → All (λ u. t ≢ u) (without t l)
without-apart t [] = tt
without-apart t (u ∷ l) = elim (Bool-cases (text_eq t u)) [
  | inl same ↦ rw same (without-apart t l)
  | inr other ↦ rw other (apart other, without-apart t l)
]
  where
    apart : text_eq t u ≡ false → t ≢ u
    apart h e = ground (arith, text_eq_iff t u)

AreApartTexts-without : (t : Text) (l : List Text) → AreApartTexts l → AreApartTexts (without t l)
AreApartTexts-without t [] h = tt
AreApartTexts-without t (u ∷ l) (n, h) = elim (Bool-cases (text_eq t u)) [
  | inl same ↦ rw same (AreApartTexts-without t l h)
  | inr other ↦ rw other (All-without (λ k. u ≢ k) t l n, AreApartTexts-without t l h)
]

without-miss :
    (k t : Text) (l : List Text) → t ≢ k → All (λ u. u ≢ k) (without t l) → All (λ u. u ≢ k) l
without-miss k t [] n h = tt
without-miss k t (u ∷ l) n h = elim (Bool-cases (text_eq t u)) [
  | inl same ↦ (λ e. n ((text_eq_iff t u).0 same ∙ e), without-miss k t l n (rw same at h))
  | inr other ↦ let (p, rest) = rw other at h in (p, without-miss k t l n rest)
]

abbrev HasText : Dict Text Text → Text → Type 0
HasText m t = (text : Text) × (lookup t m ≡ some text)

glob-files : (m : Dict Text Text) → All (HasText m) (glob m)
glob-files [] = tt
glob-files ((t, v) ∷ m) = (
  (v, rw ((text_eq_iff t t).1 refl) refl),
  All-without (HasText ((t, v) ∷ m)) t (glob m) (later (glob m) (glob-files m)),
)
  where
    later : (l : List Text) → All (HasText m) l → All (HasText ((t, v) ∷ m)) l
    later [] h = tt
    later (u ∷ l) ((w, h), hs) = (
      elim (Bool-cases (text_eq t u)) [
        | inl same ↦ (v, rw same refl)
        | inr other ↦ (w, rw other h)
      ],
      later l hs,
    )

pub glob-IsGlob : IsGlob glob
glob-IsGlob = record { apart = apart; files = glob-files; misses = misses }
  where
    apart : (m : Dict Text Text) → AreApartTexts (glob m)
    apart [] = tt
    apart ((t, v) ∷ m) = (without-apart t (glob m), AreApartTexts-without t (glob m) (apart m))

    misses : (m : Dict Text Text) (k : Text) → All (λ u. u ≢ k) (glob m) → lookup k m ≡ none
    misses [] k h = refl
    misses ((t, v) ∷ m) k (n, h) =
        let rest = misses m k (without-miss k t (glob m) n h) in
        let other : text_eq t k ≡ false = apart_eq t k n in rw other rest
      where
        apart_eq : (a b : Text) → a ≢ b → text_eq a b ≡ false
        apart_eq a b n = ground (arith, text_eq_iff a b)

read_metadata-write_metadata_example :
    (read_metadata S 0 full (write_metadata S full)
      ≡ some (set_max_load S (record full { pl_init = named_init S empty_list }) full.max_load))
    × ((terms : ℕ) → read_metadata S (suc terms) full (write_metadata S full) ≡ none)
read_metadata-write_metadata_example =
    read_metadata-write_metadata S full full (omega arith) (omega arith)

save_to_disk_lem_example :
    (lex' : Lexicon S) × (save_to_disk S strict can_create true full
      ≡ some (lex', write_metadata S full))
    × IsSaved S full lex'
    × ((tag : Text) (a : ℕ) → lookup tag full.pl_set_cache ≡ some a → IsFiled S lex' tag)
save_to_disk_lem_example = save_to_disk_lem S strict can_create (λ t. refl) full full-IsSound

load_from_disk-save_to_disk_example :
    (saved : Lexicon S) × (metadata : Text) × (save_to_disk S strict can_create true full
      ≡ some (saved, metadata))
    × Reloads S T strict can_create
        (λ t. refl)
        glob
        glob-IsGlob
        full
        trie
        (load_from_disk S strict can_create T glob saved.disk (some metadata))
load_from_disk-save_to_disk_example =
    load_from_disk-save_to_disk S T strict can_create (λ t. refl) glob glob-IsGlob full trie
      full-IsSound full-IsIndexed (unfold create_positional new_positional_entry in refl)
      (omega arith) (omega arith) (λ t h. refl)
