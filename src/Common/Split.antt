-- ===== src/Common/Split.antt =====
-- `strings.Split` and `strings.Join` at one character.
use Prim.Native.Nat.{ℕ}
use mathlib.Core.Path.{◌≡◌, refl}
use mathlib.Core.Logic.{inl, inr}
use mathlib.Core.Bool.{Bool, false, not, ◌||◌}
use mathlib.Core.List.{List, [], ◌∷◌, ◌++◌}
use native.Mathlib.Omega.{arith}
use irengine.Common.Tests.{◌==◌, if◌then◌else◌, Bool-cases}
use irengine.Common.Lists.{All, select}
use irengine.Common.Strings.{Text, concat}

-- A character before the first of some parts.
abbrev pub cons_first : ℕ → List Text → List Text
cons_first c [] = (c ∷ []) ∷ []
cons_first c (p ∷ ps) = (c ∷ p) ∷ ps

abbrev pub split : ℕ → Text → List Text
split sep [] = [] ∷ []
split sep (c ∷ s) = let rest = split sep s in if c == sep then [] ∷ rest else cons_first c rest

abbrev pub join : ℕ → List Text → Text
join sep [] = []
join sep (p ∷ []) = p
join sep (p ∷ q ∷ ps) = p ++ sep ∷ join sep (q ∷ ps)

abbrev pub has_char : ℕ → Text → Bool
has_char a [] = false
has_char a (c ∷ s) = c == a || has_char a s

-- A list that is not empty.
abbrev IsCons : List Text → Type 0
IsCons [] = ⊥
IsCons (p ∷ ps) = Unit

split-IsCons : (sep : ℕ) (s : Text) → IsCons (split sep s)
split-IsCons sep [] = tt
split-IsCons sep (c ∷ s) = elim (Bool-cases (c == sep)) [
  | inl e ↦ rw e tt
  | inr e ↦ rw e (go (split sep s))
]
  where
    go : (l : List Text) → IsCons (cons_first c l)
    go [] = tt
    go (p ∷ ps) = tt

join-nil_first : (sep : ℕ) (l : List Text) → IsCons l → join sep ([] ∷ l) ≡ sep ∷ join sep l
join-nil_first sep [] h = absurd h
join-nil_first sep (p ∷ ps) h = refl

join-cons_first :
    (sep c : ℕ) (l : List Text) → IsCons l → join sep (cons_first c l) ≡ c ∷ join sep l
join-cons_first sep c [] h = absurd h
join-cons_first sep c (p ∷ []) h = refl
join-cons_first sep c (p ∷ q ∷ ps) h = refl

-- To join the parts again gives the text.
pub join-split : (sep : ℕ) (s : Text) → join sep (split sep s) ≡ s
join-split sep [] = refl
join-split sep (c ∷ s) = ground (
  arith,
  join-split sep s,
  join-nil_first sep (split sep s) (split-IsCons sep s),
  join-cons_first sep c (split sep s) (split-IsCons sep s),
)

concat-cons_first : (c : ℕ) (l : List Text) → concat (cons_first c l) ≡ c ∷ concat l
concat-cons_first c [] = refl
concat-cons_first c (p ∷ ps) = refl

-- To put the parts together without the separator is to drop the separators.
pub concat-split : (sep : ℕ) (s : Text) → concat (split sep s) ≡ select (λ c. not (c == sep)) s
concat-split sep [] = refl
concat-split sep (c ∷ s) = ground (arith, concat-split sep s, concat-cons_first c (split sep s))

abbrev pub Lacks : ℕ → Text → Type 0
Lacks a s = has_char a s ≡ false

All-cons_first :
    (sep c : ℕ) (l : List Text)
    → (c == sep) ≡ false
    → All (Lacks sep) l
    → All (Lacks sep) (cons_first c l)
All-cons_first sep c [] h a = (ground arith, tt)
All-cons_first sep c (p ∷ ps) h (x, a) = (ground arith, a)

-- No part has the separator.
pub split-Lacks : (sep : ℕ) (s : Text) → All (Lacks sep) (split sep s)
split-Lacks sep [] = (refl, tt)
split-Lacks sep (c ∷ s) = elim (Bool-cases (c == sep)) [
  | inl e ↦ rw e (refl, split-Lacks sep s)
  | inr e ↦ rw e (All-cons_first sep c (split sep s) e (split-Lacks sep s))
]
