-- ===== src/Constrained/PostingListSet/Lines.antt =====
-- The lines that `Dump` writes.
use irengine.Common.{
  ℕ, ltb, ◌<◌, ◌≡◌, ◌≢◌, ◌⊎◌, refl, ap, ◌∙◌, true, List, [], ◌∷◌, ◌++◌, arith, All, Text, split,
  Lacks,
}
use irengine.Indexer.Entry.Chars.{IsPlain}
use irengine.Constrained.PostingListSet.{
  drop_return, byte_length, max_scan_token_size, lines_of, scan_lines,
}

-- A part without the separator comes first.
pub split-append : (sep : ℕ) (a b : Text) → Lacks sep a → split sep (a ++ sep ∷ b) ≡ a ∷ split sep b
split-append sep [] b h = ground arith
split-append sep (c ∷ a) b h = ground (arith, split-append sep a b)

pub split-lone : (sep : ℕ) (a : Text) → Lacks sep a → split sep a ≡ a ∷ []
split-lone sep [] h = refl
split-lone sep (c ∷ a) h = ground (arith, split-lone sep a)

pub Lacks-append : (sep : ℕ) (a b : Text) → Lacks sep a → Lacks sep b → Lacks sep (a ++ b)
Lacks-append sep [] b h k = k
Lacks-append sep (c ∷ a) b h k = ground (arith, Lacks-append sep a b)

-- A text of digits and spaces lacks the other characters.
abbrev pub IsMark : ℕ → Type 0
IsMark sep = (sep ≢ b' ') × ((sep < b'0') ⊎ (b'9' < sep))

pub plain-Lacks : (sep : ℕ) (s : Text) → IsMark sep → All IsPlain s → Lacks sep s
plain-Lacks sep [] m h = refl
plain-Lacks sep (c ∷ s) m (p, h) = ground (arith, plain-Lacks sep s m h)

drop_return-plain : (s : Text) → All IsPlain s → drop_return s ≡ s
unfolding drop_return
drop_return-plain [] h = refl
drop_return-plain (c ∷ []) (p, h) = ground arith
drop_return-plain (c ∷ d ∷ s) (p, h) = ap (λ t. c ∷ t) (drop_return-plain (d ∷ s) h)

-- A line that ends in digits and spaces has no carriage return at its end.
pub drop_return-append :
    (a : Text) (d : ℕ) (s : Text) → All IsPlain (d ∷ s) → drop_return (a ++ d ∷ s) ≡ a ++ d ∷ s
unfolding drop_return
drop_return-append [] d s h = drop_return-plain (d ∷ s) h
drop_return-append (c ∷ []) d s h = ap (λ t. c ∷ t) (drop_return-plain (d ∷ s) h)
drop_return-append (c ∷ b ∷ a) d s h = ap (λ t. c ∷ t) (drop_return-append (b ∷ a) d s h)

-- The lines of a text in which each line ends.
abbrev pub ended_lines : List Text → Text
ended_lines [] = []
ended_lines (l ∷ ls) = l ++ (10 ∷ ended_lines ls)

abbrev pub IsLine : Text → Type 0
IsLine l = Lacks 10 l × (drop_return l ≡ l) × (byte_length l < max_scan_token_size)

split-lines : (ls : List Text) → All IsLine ls → split 10 (ended_lines ls) ≡ ls ++ [] ∷ []
split-lines [] h = refl
split-lines (l ∷ ls) ((a, b, z), h) =
    split-append 10 l (ended_lines ls) a ∙ ap (λ t. l ∷ t) (split-lines ls h)

fits :
    (l : Text)
    → byte_length l < max_scan_token_size
    → ltb (byte_length l) max_scan_token_size ≡ true
fits l z = ground (arith, z)

lines_of-lines : (ls : List Text) → All IsLine ls → lines_of (ls ++ [] ∷ []) ≡ ls
unfolding lines_of
lines_of-lines [] h = refl
lines_of-lines (l ∷ []) ((a, b, z), h) = rw (fits l z) (ap (λ t. t ∷ []) b)
lines_of-lines (l ∷ m ∷ ls) ((a, b, z), h) =
    rw (fits l z) (rw b (ap (λ t. l ∷ t) (lines_of-lines (m ∷ ls) h)))

pub scan_lines-ended_lines : (ls : List Text) → All IsLine ls → scan_lines (ended_lines ls) ≡ ls
unfolding scan_lines
scan_lines-ended_lines ls h = ap lines_of (split-lines ls h) ∙ lines_of-lines ls h
