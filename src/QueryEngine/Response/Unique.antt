-- ===== src/QueryEngine/Response/Unique.antt =====
-- `ExtendUnique` beside a list of the results whose documents are new.
use irengine.Common.{
  ◌≡◌, refl, sym, ap, ◌∙◌, Bool, true, false, not, ◌||◌, if◌then◌else◌, Option, none, some, List,
  [], ◌∷◌, ◌++◌, append_assoc, append-nil, select, Text, text_eq, Dict, text_key, lookup, insert,
  lookup-insert, Option-cases, inl, inr,
}
use irengine.QueryEngine.Response.{
  Result, Response, items, append, mark_existing, append_missing, extend_unique,
}

abbrev present : {A : Type 0} → Option A → Bool
present none = false
present (some x) = true

items-append :
    {A : Type 0} (o : Option (List A)) (xs : List A) → items (append o xs) ≡ items o ++ xs
items-append none [] = refl
items-append none (x ∷ xs) = refl
items-append (some l) xs = refl

select_same :
    {A : Type 0} (p q : A → Bool) → ((x : A) → p x ≡ q x) → (l : List A) → select p l ≡ select q l
select_same p q h [] = refl
select_same p q h (x ∷ l) = rw (h x, select_same p q h l) refl

module _ {Score : Type 0} where
  -- Whether a list of results has a document.
  abbrev pub has_document : Text → List (Result Score) → Bool
  has_document d [] = false
  has_document d (r ∷ rs) = text_eq r.document d || has_document d rs

  present-mark_existing :
      (d : Text) (rs : List (Result Score)) (m : Dict Text Bool)
      → present (lookup d (mark_existing rs m)) ≡ (has_document d rs || present (lookup d m))
  unfolding mark_existing
  present-mark_existing d [] m = refl
  present-mark_existing d (r ∷ rs) m =
      present-mark_existing d rs (insert r.document true m)
      ∙ ap (λ b. has_document d rs || present b) (lookup-insert r.document d true m)
      ∙ shuffle (text_eq r.document d) (has_document d rs) (lookup d m)
    where
      shuffle :
          (b c : Bool) (o : Option Bool)
          → (c || present (if b then some true else o)) ≡ ((b || c) || present o)
      shuffle true true o = refl
      shuffle true false o = refl
      shuffle false c o = refl

  items-append_missing :
      (existing : Dict Text Bool) (rs : List (Result Score)) (o : Option (List (Result Score)))
      → items (append_missing existing rs o)
        ≡ items o ++ select (λ r. not (present (lookup r.document existing))) rs
  unfolding append_missing
  items-append_missing existing [] o = sym (append-nil (items o))
  items-append_missing existing (r ∷ rs) o = elim (Option-cases (lookup r.document existing)) [
    | inl e ↦
        rw (e, append_missing)
          (items-append_missing existing rs (append o (r ∷ []))
            ∙ ap (λ l. l ++ select (λ r. not (present (lookup r.document existing))) rs)
                (items-append o (r ∷ []))
            ∙ append_assoc (items o) (r ∷ []) _)
    | inr (b, e) ↦ rw (e, append_missing) (items-append_missing existing rs o)
  ]

  -- `ExtendUnique` adds, in their order and behind the results there, the results of the other
  -- response whose documents the first one does not have, and changes neither error nor source.
  pub extend_unique_lem :
      (r o : Response Score)
      → (items (extend_unique r o).results
          ≡ items r.results
            ++ select (λ x. not (has_document x.document (items r.results))) (items o.results))
        × ((extend_unique r o).error ≡ r.error)
        × ((extend_unique r o).source ≡ r.source)
  unfolding extend_unique
  extend_unique_lem r o = (
    items-append_missing (mark_existing (items r.results) []) (items o.results) r.results
        ∙ ap (λ l. items r.results ++ l)
            (select_same _ _
              (λ x. ap not (
                present-mark_existing x.document (items r.results) []
                ∙ or_false (has_document x.document (items r.results))))
              (items o.results)),
    refl,
    refl,
  )
    where
      or_false : (b : Bool) → (b || false) ≡ b
      or_false true = refl
      or_false false = refl
