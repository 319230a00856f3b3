-- ===== src/Indexer/Ordered.antt =====
-- Association lists in the order of their keys: how a skip list is iterated.
use mathlib.Core.Path.{subst₂}
use irengine.Common.{
  ℕ, ◌+◌, ◌<◌, ◌==◌, ltb, if◌then◌else◌, ◌≡◌, refl, none, some, List, [], ◌∷◌, arith, All, length,
  nat_key, lookup, remove, Bool-cases, ==_iff, inl, inr, none-some, some-injective, sym, ap, ◌∙◌,
  false,
}

-- Increasing keys, none of them twice.
abbrev pub IsOrdered {ℓ} : {V : Type ℓ} → List (ℕ × V) → Type 0
IsOrdered [] = Unit
IsOrdered ((k, v) ∷ m) = All (λ e. k < e.0) m × IsOrdered m

module _ {ℓ} {V : Type ℓ} where
  -- Replaces the value of a key, or inserts the key at its place.
  unfoldable pub put_entry : ℕ → V → List (ℕ × V) → List (ℕ × V)
  put_entry k v [] = (k, v) ∷ []
  put_entry k v ((j, w) ∷ m) =
      if k == j
      then (k, v) ∷ m
      else if ltb k j
      then (k, v) ∷ (j, w) ∷ m
      else (j, w) ∷ put_entry k v m

  pub All_mono : (i k : ℕ) (m : List (ℕ × V)) → i < k → All (λ e. k < e.0) m → All (λ e. i < e.0) m
  All_mono i k [] h a = tt
  All_mono i k ((j, w) ∷ m) h (a, h_rest) = (omega arith, All_mono i k m h h_rest)

  All-put_entry :
      (i k : ℕ) (v : V) (m : List (ℕ × V))
      → i < k
      → All (λ e. i < e.0) m
      → All (λ e. i < e.0) (put_entry k v m)
  unfolding put_entry
  All-put_entry i k v [] h a = (h, tt)
  All-put_entry i k v ((j, w) ∷ m) h (a, h_rest) = ground (arith, All-put_entry i k v m h h_rest)

  pub put_entry-IsOrdered :
      (k : ℕ) (v : V) (m : List (ℕ × V)) → IsOrdered m → IsOrdered (put_entry k v m)
  unfolding put_entry
  put_entry-IsOrdered k v [] o = (tt, tt)
  put_entry-IsOrdered k v ((j, w) ∷ m) (a, o) =
      ground (arith, All_mono k j m, All-put_entry j k v m, put_entry-IsOrdered k v m o)

  All-remove : (i k : ℕ) (m : List (ℕ × V)) → All (λ e. i < e.0) m → All (λ e. i < e.0) (remove k m)
  All-remove i k [] a = tt
  All-remove i k ((j, w) ∷ m) (a, h_rest) = ground (arith, All-remove i k m h_rest)

  pub remove-IsOrdered : (k : ℕ) (m : List (ℕ × V)) → IsOrdered m → IsOrdered (remove k m)
  remove-IsOrdered k [] o = tt
  remove-IsOrdered k ((j, w) ∷ m) (a, o) =
      ground (arith, All-remove j k m a, remove-IsOrdered k m o)

  pub lookup_above : (k : ℕ) (m : List (ℕ × V)) → All (λ e. k < e.0) m → lookup k m ≡ none
  lookup_above k [] a = refl
  lookup_above k ((j, w) ∷ m) (a, h_rest) = ground (arith, lookup_above k m h_rest)

  pub lookup-put_entry :
      (k j : ℕ) (v : V) (m : List (ℕ × V))
      → lookup j (put_entry k v m) ≡ (if k == j then some v else lookup j m)
  unfolding put_entry
  lookup-put_entry k j v [] = refl
  lookup-put_entry k j v ((i, w) ∷ m) = ground (arith, lookup-put_entry k j v m)

  -- A key that was there is replaced, and a new one adds an entry.
  pub length-put_entry_old :
      (k : ℕ) (v w : V) (m : List (ℕ × V))
      → IsOrdered m
      → lookup k m ≡ some w
      → length (put_entry k v m) ≡ length m
  unfolding put_entry
  length-put_entry_old k v w [] o h = ground arith
  length-put_entry_old k v w ((j, u) ∷ m) (a, o) h =
      ground (arith, All_mono k j m, lookup_above k m, length-put_entry_old k v w m o)

  pub length-put_entry_new :
      (k : ℕ) (v : V) (m : List (ℕ × V))
      → lookup k m ≡ none
      → length (put_entry k v m) ≡ length m + 1
  unfolding put_entry
  length-put_entry_new k v [] h = omega arith
  length-put_entry_new k v ((j, u) ∷ m) h = ground (arith, length-put_entry_new k v m)

  remove_above : (k : ℕ) (m : List (ℕ × V)) → All (λ e. k < e.0) m → remove k m ≡ m
  remove_above k [] a = refl
  remove_above k ((j, w) ∷ m) (a, h_rest) = ground (arith, remove_above k m h_rest)

  pub length-remove_old :
      (k : ℕ) (w : V) (m : List (ℕ × V))
      → IsOrdered m
      → lookup k m ≡ some w
      → length (remove k m) + 1 ≡ length m
  length-remove_old k w [] o h = ground arith
  length-remove_old k w ((j, u) ∷ m) (a, o) h =
      ground (arith, remove_above j m a, length-remove_old k w m o)

  lookup_first : (k : ℕ) (v : V) (m : List (ℕ × V)) → lookup k ((k, v) ∷ m) ≡ some v
  lookup_first k v m = rw ((==_iff k k).1 refl) refl

  lookup_later :
      (k i : ℕ) (v : V) (m : List (ℕ × V)) → (i == k) ≡ false → lookup k ((i, v) ∷ m) ≡ lookup k m
  lookup_later k i v m h = rw h refl

  -- The first key of a list in order is not below the first key of another list with the same keys.
  not_below :
      (i j : ℕ) (v w : V) (l m : List (ℕ × V))
      → All (λ e. j < e.0) m
      → lookup i ((i, v) ∷ l) ≡ lookup i ((j, w) ∷ m)
      → i < j
      → ⊥
  not_below i j v w l m b h lt =
      none-some
        (sym (lookup_above i ((j, w) ∷ m) (lt, All_mono i j m lt b)) ∙ sym h ∙ lookup_first i v l)

  -- Lists in order with the same values are the same.
  pub ordered_same :
      (l m : List (ℕ × V)) → IsOrdered l → IsOrdered m → ((k : ℕ) → lookup k l ≡ lookup k m) → l ≡ m
  ordered_same [] [] o p h = refl
  ordered_same [] ((j, w) ∷ m) o p h = absurd (none-some (h j ∙ lookup_first j w m))
  ordered_same ((i, v) ∷ l) [] o p h = absurd (none-some (sym (h i) ∙ lookup_first i v l))
  ordered_same ((i, v) ∷ l) ((j, w) ∷ m) (a, o) (b, p) h =
      let up = not_below i j v w l m b (h i) in
      let down = not_below j i w v m l a (sym (h j)) in
      let keys : i ≡ j = omega (arith, up, down) in
      let vals : v ≡ w = some-injective (
        sym (lookup_first i v l)
        ∙ h i
        ∙ ap (λ k. lookup k ((j, w) ∷ m)) keys
        ∙ lookup_first j w m) in
      let tails : l ≡ m = ordered_same l m o p (rest keys) in
      ap (λ k. (k, v) ∷ l) keys ∙ ap (λ u. (j, u) ∷ l) vals ∙ ap (λ t. (j, w) ∷ t) tails
    where
      rest : i ≡ j → (k : ℕ) → lookup k l ≡ lookup k m
      rest keys k = elim (Bool-cases (i == k)) [
        | inl same ↦
            let own = (==_iff i k).0 same in
            ap (λ n. lookup n l) (sym own)
            ∙ lookup_above i l a
            ∙ sym (lookup_above j m b)
            ∙ ap (λ n. lookup n m) (sym keys ∙ own)
        | inr other ↦
            sym (lookup_later k i v l other)
            ∙ h k
            ∙ lookup_later k j w m (ap (λ n. n == k) (sym keys) ∙ other)
      ]

module _ {ℓ κ} {V : Type ℓ} (P : ℕ × V → Type κ) where
  -- A property of all entries holds of a new one too, of what is left, and of what is found.
  pub All-put_entry_of :
      (k : ℕ) (v : V) (m : List (ℕ × V)) → P (k, v) → All P m → All P (put_entry k v m)
  unfolding put_entry
  All-put_entry_of k v [] p a = (p, tt)
  All-put_entry_of k v ((j, w) ∷ m) p (a, b) = elim (Bool-cases (k == j)) [
    | inl e ↦ rw e (p, b)
    | inr e ↦ rw e (elim (Bool-cases (ltb k j)) [
      | inl f ↦ rw f (p, (a, b))
      | inr f ↦ rw f (a, All-put_entry_of k v m p b)
    ])
  ]

  pub All-remove_of : (k : ℕ) (m : List (ℕ × V)) → All P m → All P (remove k m)
  All-remove_of k [] a = tt
  All-remove_of k ((j, w) ∷ m) (a, b) = elim (Bool-cases (j == k)) [
    | inl e ↦ rw e (All-remove_of k m b)
    | inr e ↦ rw e (a, All-remove_of k m b)
  ]

  pub All-lookup : (k : ℕ) (v : V) (m : List (ℕ × V)) → All P m → lookup k m ≡ some v → P (k, v)
  All-lookup k v [] a h = absurd (cc)
  All-lookup k v ((j, w) ∷ m) (a, b) h = elim (Bool-cases (j == k)) [
    | inl e ↦
        let keys : j ≡ k = (==_iff j k).0 e in
        let vals : w ≡ v = ground arith in subst₂ (λ i u. P (i, u)) keys vals a
    | inr e ↦ All-lookup k v m b (ground arith)
  ]
