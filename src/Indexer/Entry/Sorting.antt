-- ===== src/Indexer/Entry/Sorting.antt =====
-- `sort.Ints` keeps the positions of an entry in order.
use irengine.Common.{ℕ, suc, ◌≤◌, ◌≡◌, refl, List, [], ◌∷◌, ◌++◌, arith, All, IsSorted, length}
use irengine.Indexer.Entry.{sort_insert, sort_ints}

All-sort_insert :
    (i x : ℕ) (xs : List ℕ) → i ≤ x → All (λ y. i ≤ y) xs → All (λ y. i ≤ y) (sort_insert x xs)
All-sort_insert i x [] h a = (h, tt)
All-sort_insert i x (y ∷ ys) h (a, b) = ground (arith, All-sort_insert i x ys h b)

All-le : (i j : ℕ) (xs : List ℕ) → i ≤ j → All (λ y. j ≤ y) xs → All (λ y. i ≤ y) xs
All-le i j [] h a = tt
All-le i j (y ∷ ys) h (a, b) = (omega arith, All-le i j ys h b)

pub sort_insert-IsSorted : (x : ℕ) (xs : List ℕ) → IsSorted xs → IsSorted (sort_insert x xs)
sort_insert-IsSorted x [] s = (tt, tt)
sort_insert-IsSorted x (y ∷ ys) (a, s) =
    ground (arith, All-le x y ys, All-sort_insert y x ys, sort_insert-IsSorted x ys s)

pub sort_ints-IsSorted : (xs : List ℕ) → IsSorted (sort_ints xs)
sort_ints-IsSorted [] = tt
sort_ints-IsSorted (x ∷ xs) = sort_insert-IsSorted x (sort_ints xs) (sort_ints-IsSorted xs)

pub length-sort_insert : (x : ℕ) (xs : List ℕ) → length (sort_insert x xs) ≡ suc (length xs)
length-sort_insert x [] = refl
length-sort_insert x (y ∷ ys) = ground (arith, length-sort_insert x ys)

pub length-sort_ints : (xs : List ℕ) → length (sort_ints xs) ≡ length xs
length-sort_ints [] = refl
length-sort_ints (x ∷ xs) = omega (arith, length-sort_insert x (sort_ints xs), length-sort_ints xs)

sort_insert_first : (x : ℕ) (xs : List ℕ) → All (λ y. x ≤ y) xs → sort_insert x xs ≡ x ∷ xs
sort_insert_first x [] a = refl
sort_insert_first x (y ∷ ys) (a, b) = ground arith

pub sort_ints_of_IsSorted : (xs : List ℕ) → IsSorted xs → sort_ints xs ≡ xs
sort_ints_of_IsSorted [] s = refl
sort_ints_of_IsSorted (x ∷ xs) (a, s) =
    ground (arith, sort_ints_of_IsSorted xs s, sort_insert_first x xs a)

pub All-prefix {κ} : (P : ℕ → Type κ) (xs ys : List ℕ) → All P (xs ++ ys) → All P xs
All-prefix P [] ys a = tt
All-prefix P (x ∷ xs) ys (p, a) = (p, All-prefix P xs ys a)

pub IsSorted-prefix : (xs ys : List ℕ) → IsSorted (xs ++ ys) → IsSorted xs
IsSorted-prefix [] ys s = tt
IsSorted-prefix (x ∷ xs) ys (a, s) = (All-prefix (λ y. x ≤ y) xs ys a, IsSorted-prefix xs ys s)

sort_insert_comm :
    (x y : ℕ) (l : List ℕ) → sort_insert x (sort_insert y l) ≡ sort_insert y (sort_insert x l)
sort_insert_comm x y [] = ground arith
sort_insert_comm x y (z ∷ l) = ground (arith, sort_insert_comm x y l)

pub sort_ints-snoc : (p : ℕ) (xs : List ℕ) → sort_ints (xs ++ p ∷ []) ≡ sort_insert p (sort_ints xs)
sort_ints-snoc p [] = refl
sort_ints-snoc p (x ∷ xs) = rw (sort_ints-snoc p xs) (sort_insert_comm x p (sort_ints xs))

-- To sort after each position is to sort once at the end.
pub sort_ints_again :
    (p : ℕ) (xs : List ℕ) → sort_ints (sort_ints xs ++ p ∷ []) ≡ sort_ints (xs ++ p ∷ [])
sort_ints_again p xs =
    rw
      (sort_ints-snoc, sort_ints-snoc, sort_ints_of_IsSorted (sort_ints xs) (sort_ints-IsSorted xs))
