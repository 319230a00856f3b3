-- ===== src/Indexer/Entry/Chars.antt =====
-- The characters that entries are written with.
use irengine.Common.{
  ℕ, ◌≡◌, ◌⊎◌, inl, inr, refl, List, [], ◌∷◌, All, All-append, Text, IsDigit, format_int,
  format_int-All, is_space,
}
use irengine.Indexer.Entry.{
  Entry, basic, positional, join_positions, serialize, skip_space, token, scan,
}

abbrev pub IsPlain : ℕ → Type 0
IsPlain c = IsDigit c ⊎ (c ≡ b' ')

all-IsPlain : (s : Text) → All IsDigit s → All IsPlain s
all-IsPlain [] h = tt
all-IsPlain (c ∷ s) (d, h) = (inl d, all-IsPlain s h)

int-IsPlain : (n : ℕ) → All IsPlain (format_int n)
int-IsPlain n = all-IsPlain (format_int n) (format_int-All n)

join_positions-IsPlain : (ps : List ℕ) → All IsPlain (join_positions ps)
unfolding join_positions
join_positions-IsPlain [] = tt
join_positions-IsPlain (p ∷ []) = int-IsPlain p
join_positions-IsPlain (p ∷ q ∷ ps) =
    All-append IsPlain (format_int p) (b' ' ∷ join_positions (q ∷ ps)) (int-IsPlain p)
      (inr refl, join_positions-IsPlain (q ∷ ps))

-- An entry is written with digits and spaces.
pub serialize-IsPlain : (e : Entry) → All IsPlain (serialize e)
unfolding serialize
serialize-IsPlain (basic d n) =
    All-append IsPlain (format_int d) (b' ' ∷ format_int n) (int-IsPlain d)
      (inr refl, int-IsPlain n)
serialize-IsPlain (positional d ps) =
    All-append IsPlain (format_int d) (b' ' ∷ join_positions ps) (int-IsPlain d)
      (inr refl, join_positions-IsPlain ps)

-- A space before an entry is skipped.
pub scan-space : (e : Entry) (s : Text) → scan e (b' ' ∷ s) ≡ scan e s
unfolding scan token skip_space is_space
scan-space e s = refl
