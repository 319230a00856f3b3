-- ===== src/Indexer/SkipMap.antt =====
-- The ordered map of the package goskiplist, which the posting lists store their entries in. The
-- package is not part of the repository: a map is a parameter, with what its documentation says.
use irengine.Common.{
  ℕ, ◌≡◌, refl, Bool, true, false, Option, none, some, List, [], nat_key, lookup, remove,
  lookup-remove, ◌==◌, if◌then◌else◌,
}
use irengine.Indexer.Ordered.{
  IsOrdered, put_entry, put_entry-IsOrdered, lookup-put_entry, remove-IsOrdered,
}

abbrev pub is_some {ℓ} : {A : Type ℓ} → Option A → Bool
is_some none = false
is_some (some a) = true

pub record SkipMap (V : Type 0) : Type 1 where
  pub Map : Type 0
  pub new_custom_map : Map
  pub get : Map → ℕ → Option V
  pub set : Map → ℕ → V → Map
  -- The map without the key, and whether the key was there.
  pub delete : Map → ℕ → Map × Bool
  -- What `Iterator` goes through.
  pub entries : Map → List (ℕ × V)
  pub entries-new : entries new_custom_map ≡ []
  pub entries-IsOrdered : (m : Map) → IsOrdered (entries m)
  pub get-entries : (m : Map) (k : ℕ) → get m k ≡ lookup k (entries m)
  pub entries-set : (m : Map) (k : ℕ) (v : V) → entries (set m k v) ≡ put_entry k v (entries m)
  pub entries-delete : (m : Map) (k : ℕ) → entries (delete m k).0 ≡ remove k (entries m)
  pub delete_found : (m : Map) (k : ℕ) → (delete m k).1 ≡ is_some (get m k)

-- An ordered list meets the laws.
abbrev pub ordered_list : (V : Type 0) → SkipMap V
ordered_list V = record {
  Map = (l : List (ℕ × V)) × IsOrdered l;
  new_custom_map = ([], tt);
  get = λ m k. lookup k m.0;
  set = λ m k v. (put_entry k v m.0, put_entry-IsOrdered k v m.0 m.1);
  delete = λ m k. ((remove k m.0, remove-IsOrdered k m.0 m.1), is_some (lookup k m.0));
  entries = λ m. m.0;
  entries-new = refl;
  entries-IsOrdered = λ m. m.1;
  get-entries = λ m k. refl;
  entries-set = λ m k v. refl;
  entries-delete = λ m k. refl;
  delete_found = λ m k. refl;
}

module _ {V : Type 0} (S : SkipMap V) where
  open S use {Map, get, set, delete, get-entries, entries-set, entries-delete}

  pub get-set :
      (m : Map) (k j : ℕ) (v : V) → get (set m k v) j ≡ (if k == j then some v else get m j)
  get-set m k j v = rw (get-entries, entries-set, get-entries) (lookup-put_entry k j v _)

  pub get-delete : (m : Map) (k j : ℕ) → get (delete m k).0 j ≡ (if k == j then none else get m j)
  get-delete m k j = rw (get-entries, entries-delete, get-entries) (lookup-remove k j _)
