-- ===== src/Constrained/PostingListSet/RoundTrip.antt =====
-- What `Load` makes of what `Dump` has written.
use irengine.Common.{
  ℕ, ◌<◌, ◌≡◌, inr, refl, sym, ap, ◌∙◌, false, some, List, [], ◌∷◌, ◌++◌, append_assoc, arith, All,
  Text, codes, Dict, split, Lacks, is_space, trim_end, trim_space-append,
}
use irengine.Indexer.SkipMap.{SkipMap}
use irengine.Indexer.Entry.{Entry, serialize, scan}
use irengine.Indexer.Entry.RoundTrip.{IsStorable, fresh, scan-serialize}
use irengine.Indexer.Entry.Chars.{serialize-IsPlain, scan-space}
use irengine.Indexer.PostingList.{PostingList}
use irengine.Constrained.PostingListSet.{
  PostingListSet, sscanln, drop_return, byte_length, max_scan_token_size, add_entry, load_line,
  load_lines, load, dump_line, dump_list, dump_map, dump,
}
use irengine.Constrained.PostingListSet.Lines.{
  split-append, split-lone, Lacks-append, plain-Lacks, drop_return-append, ended_lines, IsLine,
  scan_lines-ended_lines,
}

-- A term that a line can hold: not empty, no space around it, no `#` and no line end.
abbrev pub IsTerm : Text → Type 0
IsTerm [] = ⊥
IsTerm (c ∷ s) =
    (is_space c ≡ false) × (trim_end (c ∷ s) ≡ c ∷ s) × Lacks b'#' (c ∷ s) × Lacks 10 (c ∷ s)

-- An entry that can be written in one line of the scanner's size, and that the initializer `e` makes the like of.
abbrev pub IsDumpable : Entry → Text × Entry → Type 0
IsDumpable made (term, e) =
    IsTerm term
    × IsStorable e
    × (made ≡ fresh e)
    × (byte_length (dump_line term e) < max_scan_token_size)

sscanln-whole : (made e : Entry) (s : Text) → scan made s ≡ some (e, []) → sscanln made s ≡ some e
unfolding sscanln
sscanln-whole made e s h = rw (h, sscanln) refl

sscanln-serialize :
    (made e : Entry) → IsStorable e → made ≡ fresh e → sscanln made (b' ' ∷ serialize e) ≡ some e
sscanln-serialize made e h k =
    sscanln-whole made e (b' ' ∷ serialize e)
      (scan-space made (serialize e) ∙ ap (λ m. scan m (serialize e)) k ∙ scan-serialize e h)

module _ (S : SkipMap Entry) where
  open S use {entries}

  before_mark :
      (term : Text) (e : Entry)
      → dump_line term e ≡ (term ++ b' ' ∷ []) ++ b'#' ∷ (b' ' ∷ serialize e)
  before_mark term e = sym (append_assoc term (b' ' ∷ []) _)

  split-dump_line :
      (term : Text) (e : Entry)
      → Lacks b'#' term
      → split b'#' (dump_line term e) ≡ (term ++ b' ' ∷ []) ∷ (b' ' ∷ serialize e) ∷ []
  split-dump_line term e h =
      ap (split b'#') (before_mark term e)
      ∙ split-append b'#' (term ++ b' ' ∷ []) (b' ' ∷ serialize e)
          (Lacks-append b'#' term (b' ' ∷ []) h (ground arith))
      ∙ ap (λ l. (term ++ b' ' ∷ []) ∷ l)
          (split-lone b'#' (b' ' ∷ serialize e)
            (plain-Lacks b'#' (b' ' ∷ serialize e) (ground arith) (inr refl, serialize-IsPlain e)))

  load_line-dump_line :
      (pls : PostingListSet S) (term : Text) (e : Entry)
      → IsDumpable (pls.pl_init.entry_factory 0) (term, e)
      → load_line S pls (dump_line term e) ≡ some (add_entry S pls term e)
  unfolding load_line
  load_line-dump_line pls (c ∷ s) e ((b, t, m, n), h, k, z) =
      rw
        (
          split-dump_line (c ∷ s) e m,
          trim_space-append c s b t,
          sscanln-serialize (pls.pl_init.entry_factory 0) e h k,
          load_line,
        )
        refl
  load_line-dump_line pls [] e (b, h, k, z) = absurd b

  dump_line-IsLine :
      (made : Entry) (term : Text) (e : Entry)
      → IsDumpable made (term, e)
      → IsLine (dump_line term e)
  dump_line-IsLine made (c ∷ s) e ((b, t, m, n), h, k, z) = (
    Lacks-append 10 (c ∷ s) (codes " # " ++ serialize e) n (
        Lacks-append 10 (codes " # ") (serialize e) (ground arith)
          (plain-Lacks 10 (serialize e) (ground arith) (serialize-IsPlain e))),
    ap drop_return (marked (c ∷ s) (serialize e))
        ∙ drop_return-append (c ∷ s ++ b' ' ∷ b'#' ∷ []) (b' ') (serialize e)
            (inr refl, serialize-IsPlain e)
        ∙ sym (marked (c ∷ s) (serialize e)),
    z,
  )
    where
      marked : (a b : Text) → a ++ (codes " # " ++ b) ≡ (a ++ b' ' ∷ b'#' ∷ []) ++ b' ' ∷ b
      marked a b = sym (append_assoc a (b' ' ∷ b'#' ∷ []) _)
  dump_line-IsLine made [] e (b, h, k, z) = absurd b

  -- The terms and entries of a set, as `Dump` goes through them.
  abbrev pub list_pairs : Text → List (ℕ × Entry) → List (Text × Entry)
  list_pairs term [] = []
  list_pairs term ((k, e) ∷ es) = (term, e) ∷ list_pairs term es

  abbrev pub map_pairs : Dict Text (PostingList S) → List (Text × Entry)
  map_pairs [] = []
  map_pairs ((term, pl) ∷ m) = list_pairs term (entries pl.list) ++ map_pairs m

  abbrev line_list : List (Text × Entry) → List Text
  line_list [] = []
  line_list ((term, e) ∷ ps) = dump_line term e ∷ line_list ps

  -- The entries added one after the other.
  unfoldable pub add_all : PostingListSet S → List (Text × Entry) → PostingListSet S
  add_all pls [] = pls
  add_all pls ((term, e) ∷ ps) = add_all (add_entry S pls term e) ps

  dump_list-lines :
      (term : Text) (es : List (ℕ × Entry)) (ps : List (Text × Entry))
      → dump_list S term es ++ ended_lines (line_list ps)
        ≡ ended_lines (line_list (list_pairs term es ++ ps))
  unfolding dump_list
  dump_list-lines term [] ps = refl
  dump_list-lines term ((k, e) ∷ es) ps =
      append_assoc (dump_line term e) _ _
      ∙ ap (λ t. dump_line term e ++ (10 ∷ t)) (dump_list-lines term es ps)

  dump_map-lines :
      (m : Dict Text (PostingList S)) → dump_map S m ≡ ended_lines (line_list (map_pairs m))
  unfolding dump_map
  dump_map-lines [] = refl
  dump_map-lines ((term, pl) ∷ m) =
      ap (λ t. dump_list S term (entries pl.list) ++ t) (dump_map-lines m)
      ∙ dump_list-lines term (entries pl.list) (map_pairs m)

  lines-IsLine :
      (made : Entry) (ps : List (Text × Entry))
      → All (IsDumpable made) ps
      → All IsLine (line_list ps)
  lines-IsLine made [] h = tt
  lines-IsLine made ((term, e) ∷ ps) (p, h) =
      (dump_line-IsLine made term e p, lines-IsLine made ps h)

  load_lines-add :
      (pls : PostingListSet S) (ps : List (Text × Entry))
      → All (IsDumpable (pls.pl_init.entry_factory 0)) ps
      → load_lines S pls (line_list ps) ≡ some (add_all pls ps)
  unfolding load_lines add_all add_entry
  load_lines-add pls [] h = refl
  load_lines-add pls ((term, e) ∷ ps) (p, h) =
      rw (load_line-dump_line pls term e p, load_lines)
        (load_lines-add (add_entry S pls term e) ps h)

  -- What `Dump` has written of terms and entries that lines can hold, `Load` adds to a set without a panic,
  -- entry by entry, each under its term.
  pub load-dump :
      (pls target : PostingListSet S)
      → All (IsDumpable (target.pl_init.entry_factory 0)) (map_pairs pls.list_map)
      → load S target (dump S pls) ≡ some (add_all target (map_pairs pls.list_map))
  unfolding load dump
  load-dump pls target h =
      ap (λ t. load S target t) (dump_map-lines pls.list_map)
      ∙ ap (load_lines S target) (
          scan_lines-ended_lines (line_list (map_pairs pls.list_map))
            (lines-IsLine (target.pl_init.entry_factory 0) (map_pairs pls.list_map) h))
      ∙ load_lines-add target (map_pairs pls.list_map) h
