-- ===== src/Constrained/Lexicon/Metadata/RoundTrip.antt =====
-- The metadata that is written is read back.
use irengine.Common.{
  none, ℕ, suc, ◌+◌, ◌^◌, ◌<◌, ◌≤◌, ltb, ◌≡◌, refl, ap, ◌∙◌, if◌then◌else◌, Bool, true, false,
  Bool-cases, inl, inr, some, List, [], ◌∷◌, ◌++◌, arith, All, ℤ, pos, negsuc, Text, codes, IsDigit,
  format_int, format_int-All, format_int_nonempty, parse_int, parse_int-format_int, length, ◌&&◌,
  Lacks, format_int-length,
}
use irengine.Indexer.SkipMap.{SkipMap}
use irengine.Indexer.Entry.{Entry}
use irengine.Indexer.PostingList.{PostingList, create_basic, create_positional}
use irengine.Constrained.PostingListSet.{scan_lines, byte_length, drop_return}
use irengine.Constrained.PostingListSet.Lines.{IsLine, scan_lines-ended_lines}
use irengine.Constrained.Lexicon.{Lexicon, set_max_load}
use irengine.Constrained.Lexicon.Metadata.{
  format_signed, negated, not_negated, parse_signed, split_first, pl_type, metadata_line,
  write_metadata, read_field, read_fields, read_metadata, Metadata, with_init, with_limit,
}

-- An `int` of 64 bits
abbrev pub IsInt64 : ℤ → Type 0
IsInt64 (pos n) = n < 2 ^ 63
IsInt64 (negsuc n) = n < 2 ^ 63

no_sign : (c : ℕ) (s : Text) → IsDigit c → parse_signed (c ∷ s) ≡ not_negated (parse_int 64 (c ∷ s))
unfolding parse_signed
no_sign c s d = ground arith

no_sign-All :
    (s : Text) → 0 < length s → All IsDigit s → parse_signed s ≡ not_negated (parse_int 64 s)
no_sign-All [] l h = absurd (omega arith)
no_sign-All (c ∷ s) l (d, h) = no_sign c s d

negated-suc : (n : ℕ) → n < 2 ^ 63 → negated (suc n) ≡ some (negsuc n)
negated-suc n h = ground arith

pub parse_signed-format_signed : (z : ℤ) → IsInt64 z → parse_signed (format_signed z) ≡ some z
unfolding format_signed
parse_signed-format_signed (pos n) h =
    no_sign-All (format_int n) (format_int_nonempty n) (format_int-All n)
    ∙ ap not_negated (parse_int-format_int 64 n h)
parse_signed-format_signed (negsuc n) h =
    unfold parse_signed in rw (parse_int-format_int 65 (suc n) (omega arith)) (negated-suc n h)

-- The characters of the lines: ASCII, and past the line feed and the carriage return.
abbrev are_printable : Text → Bool
are_printable [] = true
are_printable (c ∷ s) = ltb 13 c && ltb c 128 && are_printable s

Lacks-printable : (s : Text) → are_printable s ≡ true → Lacks 10 s
Lacks-printable [] h = refl
Lacks-printable (c ∷ s) h = ground (arith, Lacks-printable s)

drop_return-printable : (s : Text) → are_printable s ≡ true → drop_return s ≡ s
unfolding drop_return
drop_return-printable [] h = refl
drop_return-printable (c ∷ []) h = ground arith
drop_return-printable (c ∷ d ∷ s) h =
    let rest : are_printable (d ∷ s) ≡ true = ground arith in
    ap (λ t. c ∷ t) (drop_return-printable (d ∷ s) rest)

byte_length-printable : (s : Text) → are_printable s ≡ true → byte_length s ≡ length s
byte_length-printable [] h = refl
byte_length-printable (c ∷ s) h = ground (arith, byte_length-printable s)

printable-IsLine : (s : Text) → are_printable s ≡ true → length s < 65536 → IsLine s
printable-IsLine s h l =
    (Lacks-printable s h, drop_return-printable s h, omega (arith, byte_length-printable s h))

are_printable-append :
    (a b : Text) → are_printable a ≡ true → are_printable b ≡ true → are_printable (a ++ b) ≡ true
are_printable-append [] b h k = k
are_printable-append (c ∷ a) b h k = ground (arith, are_printable-append a b)

length-append : (a b : Text) → length (a ++ b) ≡ length a + length b
length-append [] b = omega arith
length-append (c ∷ a) b = omega (arith, length-append a b)

digits-are_printable : (s : Text) → All IsDigit s → are_printable s ≡ true
digits-are_printable [] h = refl
digits-are_printable (c ∷ s) (d, h) = ground (arith, digits-are_printable s h)

-- A short value behind a name of the metadata
abbrev IsValue : Text → Type 0
IsValue s = (are_printable s ≡ true) × (length s ≤ 20)

metadata_line-IsLine :
    (name value : Text) → IsValue name → IsValue value → IsLine (metadata_line name value)
metadata_line-IsLine name value (p, l) (q, m) =
    printable-IsLine (metadata_line name value) (are_printable-append name (b' ' ∷ value) p q)
      (omega (arith, length-append name (b' ' ∷ value)))

format_int-IsValue : (n : ℕ) → n < 10 ^ 19 → IsValue (format_int n)
format_int-IsValue n h = (
  digits-are_printable (format_int n) (format_int-All n),
  omega (arith, format_int-length 18 n h),
)

format_signed-IsValue : (z : ℤ) → IsInt64 z → IsValue (format_signed z)
unfolding format_signed
format_signed-IsValue (pos n) h = format_int-IsValue n (omega arith)
format_signed-IsValue (negsuc n) h = (
  digits-are_printable (format_int (suc n)) (format_int-All (suc n)),
  omega (arith, format_int-length 18 (suc n) (omega arith)),
)

module _ (S : SkipMap Entry) where
  -- The list that the initializer with the name of `init` makes.
  abbrev pub named_init : PostingList S → PostingList S
  named_init init = if init.is_positional then create_positional S else create_basic S

  pl_type-IsValue : (init : PostingList S) → IsValue (pl_type S init)
  pl_type-IsValue init = elim (Bool-cases init.is_positional) [
    | inl p ↦ rw p (refl, omega arith)
    | inr p ↦ rw p (refl, omega arith)
  ]

  metadata_lines : Lexicon S → List Text
  metadata_lines lex =
      metadata_line (codes "pls_count") (format_int (length lex.pl_set_cache))
      ∷ metadata_line (codes "pl_type") (pl_type S lex.pl_init)
      ∷ metadata_line (codes "memlimit") (format_signed lex.max_load)
      ∷ []

  metadata_lines-AreLines :
      (lex : Lexicon S)
      → length lex.pl_set_cache < 2 ^ 63
      → IsInt64 lex.max_load
      → All IsLine (metadata_lines lex)
  unfolding metadata_lines
  metadata_lines-AreLines lex h k = (
    metadata_line-IsLine (codes "pls_count") _ (refl, omega arith)
        (format_int-IsValue (length lex.pl_set_cache) (omega arith)),
    (
      metadata_line-IsLine (codes "pl_type") _ (refl, omega arith) (pl_type-IsValue lex.pl_init),
      (
        metadata_line-IsLine (codes "memlimit") _ (refl, omega arith)
            (format_signed-IsValue lex.max_load k),
        tt,
      ),
    ),
  )

  scan_lines-write_metadata :
      (lex : Lexicon S)
      → length lex.pl_set_cache < 2 ^ 63
      → IsInt64 lex.max_load
      → scan_lines (write_metadata S lex) ≡ metadata_lines lex
  unfolding metadata_lines write_metadata
  scan_lines-write_metadata lex h k =
      scan_lines-ended_lines (metadata_lines lex) (metadata_lines-AreLines lex h k)

  read_type :
      (terms : ℕ) (m : Metadata S) (init : PostingList S)
      → read_field S terms m (codes "pl_type") (some (pl_type S init))
        ≡ with_init S terms m (named_init init)
  unfolding read_field
  read_type terms m init = elim (Bool-cases init.is_positional) [
    | inl p ↦ rw p refl
    | inr p ↦ rw p refl
  ]

  read_limit :
      (terms : ℕ) (m : Metadata S) (z : ℤ)
      → IsInt64 z
      → read_field S terms m (codes "memlimit") (some (format_signed z)) ≡ with_limit S m (some z)
  unfolding read_field
  read_limit terms m z h = ap (with_limit S m) (parse_signed-format_signed z h)

  read_fields-step :
      (terms : ℕ) (m m' : Metadata S) (name value : Text) (lines : List Text)
      → split_first (metadata_line name value) ≡ (name, some value)
      → read_field S terms m name (some value) ≡ some m'
      → read_fields S terms m (metadata_line name value ∷ lines) ≡ read_fields S terms m' lines
  unfolding read_fields
  read_fields-step terms m m' name value lines s r = rw (s, r, read_fields) refl

  read_metadata-run :
      (target : Lexicon S) (text : Text) (lines : List Text) (m : Metadata S)
      → scan_lines text ≡ lines
      → read_fields S 0 (record { lex = target; have_memlimit = false; have_pltype = false }) lines
        ≡ some m
      → m.have_pltype && m.have_memlimit ≡ true
      → read_metadata S 0 target text ≡ some m.lex
  unfolding read_metadata
  read_metadata-run target text lines m s r both = rw (s, r, both, read_metadata) refl

  read_metadata-empty :
      (lex target : Lexicon S)
      → length lex.pl_set_cache < 2 ^ 63
      → IsInt64 lex.max_load
      → read_metadata S 0 target (write_metadata S lex)
        ≡ some (set_max_load S (record target { pl_init = named_init lex.pl_init }) lex.max_load)
  read_metadata-empty lex target h k =
      let start : Metadata S = record {
        lex = target;
        have_memlimit = false;
        have_pltype = false;
      } in
      let typed : Metadata S = record {
        lex = record target { pl_init = named_init lex.pl_init };
        have_memlimit = false;
        have_pltype = true;
      } in
      let limited : Metadata S = record {
        lex = set_max_load S typed.lex lex.max_load;
        have_memlimit = true;
        have_pltype = true;
      } in
      read_metadata-run target (write_metadata S lex) (metadata_lines lex) limited
        (scan_lines-write_metadata lex h k)
        (unfold metadata_lines in
          (read_fields-step 0 start start (codes "pls_count") (format_int (length lex.pl_set_cache))
              _ (unfold split_first in refl) (unfold read_field in refl)
            ∙ read_fields-step 0 start typed (codes "pl_type") (pl_type S lex.pl_init) _
                (unfold split_first in refl) (read_type 0 start lex.pl_init)
            ∙ read_fields-step 0 typed limited (codes "memlimit") (format_signed lex.max_load) _
                (unfold split_first in refl) (read_limit 0 typed lex.max_load k)
            ∙ unfold read_fields in refl))
        refl

  fails :
      (terms : ℕ) (lex : Lexicon S) (m : Metadata S)
      → read_fields S (suc terms) m (metadata_lines lex) ≡ none
  unfolding metadata_lines
  fails terms lex m =
      read_fields-step (suc terms) m m (codes "pls_count") (format_int (length lex.pl_set_cache))
        (metadata_line (codes "pl_type") (pl_type S lex.pl_init)
          ∷ metadata_line (codes "memlimit") (format_signed lex.max_load)
          ∷ [])
        (unfold split_first in refl) (unfold read_field in refl)
      ∙ unfold read_fields split_first in rw (read_type (suc terms) m lex.pl_init, read_fields) refl

  read_metadata-fails :
      (terms : ℕ) (target : Lexicon S) (text : Text) (lines : List Text)
      → scan_lines text ≡ lines
      → ((m : Metadata S) → read_fields S terms m lines ≡ none)
      → read_metadata S terms target text ≡ none
  unfolding read_metadata
  read_metadata-fails terms target text lines s r =
      rw (s, r (record { lex = target; have_memlimit = false; have_pltype = false }), read_metadata)
        refl

  -- What `WriteMetadata` writes of a lexicon, `ReadMetadata` puts into any lexicon without terms: the limit,
  -- with the limit of a set that goes with it, and the initializer of the name. A lexicon with terms makes
  -- it panic. The numbers are of 64 bits.
  pub read_metadata-write_metadata :
      (lex target : Lexicon S)
      → length lex.pl_set_cache < 2 ^ 63
      → IsInt64 lex.max_load
      → (read_metadata S 0 target (write_metadata S lex)
          ≡ some (set_max_load S (record target { pl_init = named_init lex.pl_init }) lex.max_load))
        × ((terms : ℕ) → read_metadata S (suc terms) target (write_metadata S lex) ≡ none)
  read_metadata-write_metadata lex target h k = (
    read_metadata-empty lex target h k,
    λ terms.
        read_metadata-fails (suc terms) target (write_metadata S lex) (metadata_lines lex)
          (scan_lines-write_metadata lex h k) (fails terms lex),
  )
