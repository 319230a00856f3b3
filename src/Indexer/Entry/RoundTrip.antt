-- ===== src/Indexer/Entry/RoundTrip.antt =====
-- What `Serialize` writes, `Scan` reads back.
use irengine.Common.{
  ℕ, zero, suc, ◌^◌, ◌≤◌, ◌<◌, ◌≡◌, refl, sym, ap, ◌∙◌, true, false, some, List, [], ◌∷◌, ◌++◌,
  append_assoc, append-nil, arith, All, IsSorted, length, length-append, Text, is_digit, is_space,
  format_int, parse_int, IsDigit, format_int-All, format_int_nonempty, parse_int-format_int,
}
use irengine.Indexer.Entry.{
  Entry, basic, positional, add_position, join_positions, serialize, skip_space, take_digits, token,
  to_document_id, set_doc_id, scan_positions, scan_rest, scan,
}
use irengine.Indexer.Entry.Sorting.{sort_ints_of_IsSorted, IsSorted-prefix}

-- The text does not go on with a digit.
abbrev StopsDigits : Text → Type 0
StopsDigits [] = Unit
StopsDigits (c ∷ s) = is_digit c ≡ false

IsDigit-is_digit : (c : ℕ) → IsDigit c → is_digit c ≡ true
unfolding is_digit
IsDigit-is_digit c h = ground arith

IsDigit-not-is_space : (c : ℕ) → IsDigit c → is_space c ≡ false
unfolding is_space
IsDigit-not-is_space c h = ground arith

take_digits_stop : (s : Text) → StopsDigits s → take_digits s ≡ ([], s)
unfolding take_digits
take_digits_stop [] h = refl
take_digits_stop (c ∷ s) h = ground arith

take_digits-append :
    (ds s : Text) → All IsDigit ds → StopsDigits s → take_digits (ds ++ s) ≡ (ds, s)
unfolding take_digits
take_digits-append [] s a h = take_digits_stop s h
take_digits-append (d ∷ ds) s (a, b) h =
    ground (arith, IsDigit-is_digit d a, take_digits-append ds s b h)

skip_space_digits : (ds s : Text) → All IsDigit ds → 0 < length ds → skip_space (ds ++ s) ≡ ds ++ s
unfolding skip_space
skip_space_digits [] s a h = elim h [ ]
skip_space_digits (d ∷ ds) s (a, b) h = ground (arith, IsDigit-not-is_space d a)

token-format_int :
    (n : ℕ) (s : Text) → StopsDigits s → token (format_int n ++ s) ≡ (format_int n, s)
unfolding token
token-format_int n s h =
    rw (skip_space_digits (format_int n) s (format_int-All n) (format_int_nonempty n))
      (take_digits-append (format_int n) s (format_int-All n) h)

token_blank : (s : Text) → token (b' ' ∷ s) ≡ token s
unfolding token skip_space is_space
token_blank s = refl

token_blank_format_int :
    (n : ℕ) (s : Text) → StopsDigits s → token (b' ' ∷ (format_int n ++ s)) ≡ (format_int n, s)
token_blank_format_int n s h = token_blank (format_int n ++ s) ∙ token-format_int n s h

blank_stops : (s : Text) → StopsDigits (b' ' ∷ s)
unfolding is_digit
blank_stops s = refl

abbrev Fits : ℕ → Type 0
Fits p = p < 2 ^ 31

-- What follows a position.
abbrev tail_text : List ℕ → Text
tail_text [] = []
tail_text (q ∷ ps) = b' ' ∷ join_positions (q ∷ ps)

join_positions-tail : (p : ℕ) (ps : List ℕ) → join_positions (p ∷ ps) ≡ format_int p ++ tail_text ps
unfolding join_positions
join_positions-tail p [] = sym (append-nil (format_int p))
join_positions-tail p (q ∷ ps) = refl

tail_text_stops : (ps : List ℕ) → StopsDigits (tail_text ps)
tail_text_stops [] = tt
tail_text_stops (q ∷ ps) = blank_stops (join_positions (q ∷ ps))

scan_positions_step :
    (f : ℕ) (s : Text) (e : Entry) (ds rest : Text) (p : ℕ)
    → token s ≡ (ds, rest)
    → 0 < length ds
    → parse_int 32 ds ≡ some p
    → scan_positions (suc f) s e ≡ scan_positions f rest (add_position e p)
unfolding scan_positions
scan_positions_step f s e [] rest p t h q = elim h [ ]
scan_positions_step f s e (c ∷ cs) rest p t h q = ground arith

token_tail : (q : ℕ) (ps : List ℕ) → token (tail_text (q ∷ ps)) ≡ (format_int q, tail_text ps)
token_tail q ps =
    rw (join_positions-tail q ps) (token_blank_format_int q (tail_text ps) (tail_text_stops ps))

add_position_last :
    (d : ℕ) (acc : List ℕ) (q : ℕ)
    → IsSorted (acc ++ q ∷ [])
    → add_position (positional d acc) q ≡ positional d (acc ++ q ∷ [])
unfolding add_position
add_position_last d acc q h = ap (positional d) (sort_ints_of_IsSorted (acc ++ q ∷ []) h)

scan_positions-tail :
    (f d : ℕ) (acc ps : List ℕ)
    → length ps < f
    → All Fits ps
    → IsSorted (acc ++ ps)
    → scan_positions f (tail_text ps) (positional d acc) ≡ some (positional d (acc ++ ps), [])
scan_positions-tail zero d acc ps h a o = elim h [ ]
scan_positions-tail (suc f) d acc [] h a o =
    rw append-nil (unfold scan_positions token take_digits skip_space in refl)
scan_positions-tail (suc f) d acc (q ∷ ps) h (a, b) o =
    let regroup = append_assoc acc (q ∷ []) ps in
    let o' : IsSorted ((acc ++ q ∷ []) ++ ps) = rw regroup o in
    scan_positions_step f _ _ _ _ q (token_tail q ps) (format_int_nonempty q)
      (parse_int-format_int 32 q a)
    ∙ rw (add_position_last d acc q (IsSorted-prefix (acc ++ q ∷ []) ps o'))
        (rw (← regroup) (scan_positions-tail f d (acc ++ q ∷ []) ps (omega arith) b o'))

length-tail_text : (ps : List ℕ) → length ps ≤ length (tail_text ps)
length-tail_text [] = omega arith
length-tail_text (q ∷ ps) =
    rw join_positions-tail
      (omega (arith, length-tail_text ps, length-append (format_int q) (tail_text ps)))

basic_rest : (d n : ℕ) → Fits n → scan_rest (basic d 0) (b' ' ∷ format_int n) ≡ some (basic d n, [])
unfolding scan_rest
basic_rest d n h =
    let t : token (b' ' ∷ format_int n) ≡ (format_int n, []) =
      ap (λ s. token (b' ' ∷ s)) (sym (append-nil (format_int n)))
      ∙ token_blank_format_int n [] tt in
    ground (arith, parse_int-format_int 32 n h)

scan_document :
    (e : Entry) (d : ℕ) (s : Text)
    → d < 2 ^ 32
    → StopsDigits s
    → scan e (format_int d ++ s) ≡ scan_rest (set_doc_id d e) s
unfolding scan
scan_document e d s h st =
    let w : to_document_id d ≡ d = omega arith in
    ground (arith, token-format_int d s st, parse_int-format_int 64 d (omega arith))

positional_rest :
    (d : ℕ) (ps : List ℕ)
    → All Fits ps
    → IsSorted ps
    → scan_rest (positional d []) (b' ' ∷ join_positions ps) ≡ some (positional d ps, [])
unfolding scan_rest
positional_rest d [] a o =
    unfold join_positions scan_positions token take_digits skip_space is_space in refl
positional_rest d (q ∷ ps) a o =
    scan_positions-tail (suc (length (tail_text (q ∷ ps)))) d [] (q ∷ ps)
      (omega (arith, length-tail_text (q ∷ ps))) a o

-- What the posting lists hold: positions in order, and numbers that the widths of `Scan` allow.
abbrev pub IsStorable : Entry → Type 0
IsStorable (basic d n) = (d < 2 ^ 32) × Fits n
IsStorable (positional d ps) = (d < 2 ^ 32) × All Fits ps × IsSorted ps

-- The new entry of the kind of `e`.
abbrev pub fresh : Entry → Entry
fresh (basic _ _) = basic 0 0
fresh (positional _ _) = positional 0 []

-- What `Serialize` writes of a storable entry, `Scan` of a new entry of that kind reads back whole.
pub scan-serialize : (e : Entry) → IsStorable e → scan (fresh e) (serialize e) ≡ some (e, [])
unfolding serialize
scan-serialize (basic d n) (hd, hn) =
    scan_document _ d _ hd (blank_stops (format_int n)) ∙ basic_rest d n hn
scan-serialize (positional d ps) (hd, hp, ho) =
    scan_document _ d _ hd (blank_stops (join_positions ps)) ∙ positional_rest d ps hp ho
