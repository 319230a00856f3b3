-- ===== src/Filters/Phrases/Counts.antt =====
-- What `PhraseFilter.Apply` has counted at a document's end.
use irengine.Common.{
  ◌≤◌, ℕ, ◌+◌, ltb, if◌then◌else◌, ◌≡◌, refl, sym, ap, subst, ◌∙◌, Bool, true, false, some, List,
  [], ◌∷◌, ◌++◌, append_assoc, append-nil, Text, text_eq, text_eq_iff, Dict, text_key, lookup,
  insert, lookup-insert, arith, Bool-cases, inl, inr,
}
use irengine.FileReader.Token.{Token}
use irengine.Filters.Phrases.{PhraseFilter, count_of, or_zero, phrase_apply}

-- The filter after the tokens of a document.
unfoldable pub apply_all : PhraseFilter → List Token → PhraseFilter
apply_all f [] = f
apply_all f (t ∷ ts) = apply_all (phrase_apply f t).0 ts

-- How often a text occurs.
abbrev pub occurrences : Text → List Token → ℕ
occurrences x [] = 0
occurrences x (t ∷ ts) = (if text_eq t.text x then 1 else 0) + occurrences x ts

count-insert :
    (k x : Text) (n : ℕ) (m : Dict Text ℕ)
    → count_of x (insert k n m) ≡ (if text_eq k x then n else count_of x m)
count-insert k x n m = ap or_zero (lookup-insert k x n m) ∙ go (text_eq k x)
  where
    go : (b : Bool) → or_zero (if b then some n else lookup x m) ≡ (if b then n else count_of x m)
    go true = refl
    go false = refl

counted :
    (x : Text) (f : PhraseFilter) (t : Token)
    → count_of x (phrase_apply f t).0.stopwords
      ≡ count_of x f.stopwords + (if text_eq t.text x then 1 else 0)
unfolding phrase_apply
counted x f t =
    count-insert t.text x (count_of t.text f.stopwords + 1) f.stopwords
    ∙ elim (Bool-cases (text_eq t.text x)) [
      | inl e ↦ rw e (ap (λ k. count_of k f.stopwords + 1) ((text_eq_iff t.text x).0 e))
      | inr e ↦ rw e (omega arith)
    ]

-- `maxfreq` bounds the counts.
abbrev pub IsBounded : PhraseFilter → Type 0
IsBounded f = (x : Text) → count_of x f.stopwords ≤ f.maxfreq

phrase_apply-IsBounded :
    (f : PhraseFilter) (t : Token) → IsBounded f → IsBounded (phrase_apply f t).0
unfolding phrase_apply
phrase_apply-IsBounded f t h x =
    subst (λ k. k ≤ (phrase_apply f t).0.maxfreq) (sym (count-insert t.text x _ f.stopwords))
      (bound (text_eq t.text x) (count_of t.text f.stopwords) (count_of x f.stopwords) f.maxfreq
        (h x))
  where
    bound :
        (b : Bool) (m k max : ℕ)
        → k ≤ max
        → (if b then m + 1 else k) ≤ (if ltb max (m + 1) then m + 1 else max)
    bound b m k max p = ground arith

buffered :
    (f : PhraseFilter) (t : Token) (ts : List Token)
    → (phrase_apply f t).0.tokenbuffer ++ ts ≡ f.tokenbuffer ++ t ∷ ts
unfolding phrase_apply
buffered f t ts = append_assoc f.tokenbuffer (t ∷ []) ts

-- After the tokens `ts`, the filter has them in its buffer and has counted each text, and `maxfreq`
-- is at least each of the counts.
pub apply_all_lem :
    (f : PhraseFilter) (ts : List Token)
    → IsBounded f
    → ((apply_all f ts).tokenbuffer ≡ f.tokenbuffer ++ ts)
      × ((x : Text)
          → count_of x (apply_all f ts).stopwords ≡ count_of x f.stopwords + occurrences x ts)
      × IsBounded (apply_all f ts)
unfolding apply_all
apply_all_lem f [] h = (sym (append-nil f.tokenbuffer), (λ x. omega arith), h)
apply_all_lem f (t ∷ ts) h =
    let (buffer, counts, bounded) =
      apply_all_lem (phrase_apply f t).0 ts (phrase_apply-IsBounded f t h) in
    (buffer ∙ buffered f t ts, (λ x. counts x ∙ omega (arith, counted x f t)), bounded)
