-- ===== src/Constrained/Lexicon/Terms/RegisterAt.antt =====
-- The part of `Register` behind `RetrievePLS`, for a set in memory.
use irengine.Common.{
  ℕ, ◌+◌, ==_iff, ◌≡◌, refl, ap, subst, ◌∙◌, if◌then◌else◌, Bool, true, false, some, pos, ◌+ℤ◌,
  Text, text_eq, nat_key, text_key, lookup, lookup-insert, insert-insert,
}
use irengine.FileReader.Token.{Token}
use irengine.Indexer.SkipMap.{SkipMap}
use irengine.Indexer.Entry.{Entry}
use irengine.Indexer.PostingList.{insert_entry}
use irengine.Indexer.PostingList.Inserted.{added_to}
use irengine.Constrained.PostingListSet.{PostingListSet, get_list, list_or_new}
use irengine.Constrained.PostingListSet.RoundTrip.{IsDumpable}
use irengine.Constrained.PostingListSet.Reload.{view}
use irengine.Constrained.PostingListSet.Consistent.{IsConsistent}
use irengine.Constrained.PostingListSet.Grown.{grown, grown-IsConsistent}
use irengine.Constrained.Lexicon.{Container, Lexicon}
use irengine.Constrained.Lexicon.Memory.{store}
use irengine.Constrained.Lexicon.Memory.Keeps.{Keeps}
use irengine.Constrained.Lexicon.Memory.Kept.{entry_at, IsKept, IsSound}
use irengine.Constrained.Lexicon.Memory.Changed.{store-IsSound, store-entries}
use irengine.Constrained.Lexicon.Terms.{increment_pls_size, insert_into, register_at}

module _ (S : SkipMap Entry) where
  insert_into-grown :
      (pls : PostingListSet S) (text : Text) (token : Token)
      → insert_into S pls text token
        ≡ (grown S pls text token, (insert_entry S (list_or_new S pls text) token).1)
  unfolding insert_into get_list
  insert_into-grown pls text token =
      ap
        (λ m. (
          record (grown S pls text token) { list_map = m },
          (insert_entry S (list_or_new S pls text) token).1,
        ))
        (insert-insert text _ _ pls.list_map)

  increment_pls_size-own :
      (lex : Lexicon S) (a : ℕ) (c : Container S)
      → lookup c.tag lex.pl_set_cache ≡ some a
      → increment_pls_size S (store S lex a c) c.tag
        ≡ store S lex a (record c { size = c.size + 1 })
  unfolding increment_pls_size
  increment_pls_size-own lex a c h =
      let stored : lookup a (store S lex a c).containers ≡ some c =
        lookup-insert a a c lex.containers ∙ rw ((==_iff a a).1 refl) refl in
      rw (h, stored, increment_pls_size)
        (ap (λ m. record lex { containers = m }) (insert-insert a _ c lex.containers))

  module _ (lex : Lexicon S) (sound : IsSound S lex) (a : ℕ) (c : Container S)
      (pls : PostingListSet S) (at : lookup a lex.containers ≡ some c) (loaded : c.pls ≡ some pls)
      (text : Text) (token : Token)
      (line : IsDumpable
        (lex.pl_init.entry_factory 0)
        (text, added_to lex.pl_init.is_positional token (view S pls text token.doc_id))) where
    here : lookup c.tag lex.pl_set_cache ≡ some a
    here = sound.owned a c at

    pub kept : IsConsistent S lex.pl_init pls × (c.size ≡ pls.size)
    kept =
        let (c', at', tagged, k) = sound.cached c.tag a here in
        let same : c' ≡ c = cc in
        subst (λ o. IsKept S lex.pl_init lex.disk c.tag c.size o) loaded
          (subst (λ (e : Container S). IsKept S lex.pl_init lex.disk e.tag e.size e.pls) same k)

    counted : Bool → Container S
    counted b = record c {
      pls = some (grown S pls text token);
      size = if b then c.size + 1 else c.size;
    }

    pub registered : Bool → Lexicon S
    registered b = record (store S lex a (counted b)) {
      current_load = if b then lex.current_load +ℤ pos 1 else lex.current_load;
    }

    pub registered-Keeps : (b : Bool) → Keeps S lex (registered b)
    unfolding registered
    registered-Keeps b = (refl, refl, λ t h. (h, refl))

    abbrev is_added : Bool
    is_added = (insert_entry S (list_or_new S pls text) token).1

    pub register_at-registered : register_at S lex a c pls text token ≡ registered is_added
    unfolding register_at registered counted
    register_at-registered = rw (insert_into-grown pls text token) (go is_added)
      where
        go :
            (b : Bool)
            → (if b
                then record (increment_pls_size S
                    (store S lex a (record c { pls = some (grown S pls text token) }))
                    c.tag) { current_load = lex.current_load +ℤ pos 1 }
                else store S lex a (record c { pls = some (grown S pls text token) }))
              ≡ registered b
        go false = refl
        go true =
            ap (λ (l : Lexicon S). record l { current_load = lex.current_load +ℤ pos 1 })
              (increment_pls_size-own lex a (record c { pls = some (grown S pls text token) }) here)

    grown-kept :
        (b : Bool)
        → is_added ≡ b
        → IsConsistent S lex.pl_init (grown S pls text token)
          × ((counted b).size ≡ (grown S pls text token).size)
    unfolding counted
    grown-kept b e = (
      grown-IsConsistent S lex.pl_init sound.maker pls kept.0 text token line,
      rw e (ap (λ n. if b then n + 1 else n) kept.1),
    )

    pub registered-IsSound : (b : Bool) → is_added ≡ b → IsSound S (registered b)
    unfolding registered
    registered-IsSound b e =
        let s =
          store-IsSound S lex sound a c (counted b) (grown S pls text token) at here
            (unfold counted in refl) (unfold counted in refl) (grown-kept b e) in
        record {
          maker = s.maker;
          distinct = s.distinct;
          cached = s.cached;
          recent = s.recent;
          apart = s.apart;
          fresh = s.fresh;
          owned = s.owned;
        }

    pub registered-entries :
        (b : Bool)
        → is_added ≡ b
        → (t x : Text) (d : ℕ)
        → entry_at S (registered b) t x d
          ≡ (if text_eq c.tag t then view S (grown S pls text token) x d else entry_at S lex t x d)
    unfolding registered
    registered-entries b e =
        store-entries S lex sound a c (counted b) (grown S pls text token) at here
          (unfold counted in refl) (unfold counted in refl) (grown-kept b e)
