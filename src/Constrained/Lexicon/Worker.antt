-- ===== src/Constrained/Lexicon/Worker.antt =====
-- The list of the swapped sets that `SwappedWorker` keeps.
use irengine.Common.{
  ℕ, suc, ◌+◌, ◌-◌, ◌<◌, ◌==◌, ltb, if◌then◌else◌, ◌≡◌, ◌≢◌, refl, sym, ap, ◌∙◌, Bool, false, true,
  none, some, List, [], ◌∷◌, ◌++◌, arith, All, All-append, append_assoc, append-nil, length,
  length-append, take, drop,
}
use irengine.Constrained.Lexicon.{index_of, remove_index, remove_swapped}

index_of-absent : (a : ℕ) (l : List ℕ) → All (λ b. b ≢ a) l → index_of a l ≡ none
unfolding index_of
index_of-absent a [] n = refl
index_of-absent a (b ∷ l) (n, ns) = ground (arith, n, index_of-absent a l ns)

index_of-append :
    (a : ℕ) (xs ys : List ℕ) → All (λ b. b ≢ a) xs → index_of a (xs ++ a ∷ ys) ≡ some (length xs)
unfolding index_of
index_of-append a [] ys n = ground arith
index_of-append a (b ∷ xs) ys (n, ns) = ground (arith, n, index_of-append a xs ys ns)

take-append : (xs ys : List ℕ) (n : ℕ) → n ≡ length xs → take n (xs ++ ys) ≡ xs
take-append [] [] n h = refl
take-append [] (y ∷ ys) n h = rw h refl
take-append (x ∷ xs) ys n h = rw h (ap (λ l. x ∷ l) (take-append xs ys (length xs) refl))

drop_zero : (ys : List ℕ) → drop 0 ys ≡ ys
drop_zero [] = refl
drop_zero (y ∷ ys) = refl

drop-append :
    (xs : List ℕ) (b a : ℕ) (ys : List ℕ) (n : ℕ)
    → n ≡ suc (suc (length xs))
    → drop n (xs ++ b ∷ a ∷ ys) ≡ ys
drop-append [] b a ys n h = rw h (drop_zero ys)
drop-append (x ∷ xs) b a ys n h = rw h (drop-append xs b a ys (suc (suc (length xs))) refl)

-- The switch at a place behind the first one, in a list that is longer.
remove_index-back :
    (i : ℕ) (l : List ℕ)
    → 0 < i
    → i < length l
    → remove_index i l
      ≡ (if ltb i (length l - 1) then take (i - 1) l ++ drop (i + 1) l else take (i - 1) l)
unfolding remove_index
remove_index-back i l p q =
    let one : (length l == 1) ≡ false = ground arith in
    let first : (i == 0) ≡ false = ground arith in rw (one, first) refl

remove_index-later :
    (xs : List ℕ) (b a : ℕ) (ys : List ℕ)
    → remove_index (length xs + 1) (xs ++ b ∷ a ∷ ys) ≡ xs ++ ys
remove_index-later xs b a ys =
    let size : length (xs ++ b ∷ a ∷ ys) ≡ length xs + 2 + length ys =
      omega (arith, length-append xs (b ∷ a ∷ ys)) in
    let front = take-append xs (b ∷ a ∷ ys) (length xs + 1 - 1) (omega arith) in
    let back = drop-append xs b a ys (length xs + 1 + 1) (omega arith) in
    remove_index-back (length xs + 1) (xs ++ b ∷ a ∷ ys) (omega arith) (omega (arith, size))
    ∙ rw (front, back) (last_or_not ys size)
  where
    last_or_not :
        (zs : List ℕ)
        → length (xs ++ b ∷ a ∷ zs) ≡ length xs + 2 + length zs
        → (if ltb (length xs + 1) (length (xs ++ b ∷ a ∷ zs) - 1) then xs ++ zs else xs) ≡ xs ++ zs
    last_or_not [] h = rw append-nil (both (ltb (length xs + 1) (length (xs ++ b ∷ a ∷ []) - 1)))
      where
        both : (c : Bool) → (if c then xs else xs) ≡ xs
        both true = refl
        both false = refl
    last_or_not (z ∷ zs) h = ground arith

-- The worker takes a container that is read back off the swapped ones. It is left alone if it is not
-- there, and goes if it is the first one; otherwise the container in front of it goes as well.
pub remove_swapped_lem :
    (a : ℕ)
    → ((l : List ℕ) → All (λ b. b ≢ a) l → remove_swapped a l ≡ l)
      × ((ys : List ℕ) → remove_swapped a (a ∷ ys) ≡ ys)
      × ((xs : List ℕ) (b : ℕ) (ys : List ℕ)
          → All (λ c. c ≢ a) xs
          → b ≢ a
          → remove_swapped a (xs ++ b ∷ a ∷ ys) ≡ xs ++ ys)
unfolding remove_swapped
remove_swapped_lem a = (
  λ l n. ap (λ o. elim o [ none ↦ l | some i ↦ remove_index i l ]) (index_of-absent a l n),
  λ ys.
      ap (λ o. elim o [ none ↦ a ∷ ys | some i ↦ remove_index i (a ∷ ys) ])
        (index_of-append a [] ys tt)
      ∙ first ys,
  λ xs b ys n m.
      ap (λ o. elim o [ none ↦ xs ++ b ∷ a ∷ ys | some i ↦ remove_index i (xs ++ b ∷ a ∷ ys) ])
        (place xs b ys n m)
      ∙ remove_index-later xs b a ys,
)
  where
    first : (ys : List ℕ) → remove_index 0 (a ∷ ys) ≡ ys
    first [] = unfold remove_index in refl
    first (y ∷ ys) = unfold remove_index in ground arith

    place :
        (xs : List ℕ) (b : ℕ) (ys : List ℕ)
        → All (λ c. c ≢ a) xs
        → b ≢ a
        → index_of a (xs ++ b ∷ a ∷ ys) ≡ some (length xs + 1)
    place xs b ys n m =
        ap (index_of a) (sym (append_assoc xs (b ∷ []) (a ∷ ys)))
        ∙ index_of-append a (xs ++ b ∷ []) ys (All-append (λ c. c ≢ a) xs (b ∷ []) n (m, tt))
        ∙ ap some (length-append xs (b ∷ []))
