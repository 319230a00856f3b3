-- ===== src/Tests/Memory.antt =====
-- The lexicon of bounded memory: sets that are evicted, split and read back.
use irengine.Common.{
  ℕ, if◌then◌else◌, ◌<◌, ◌≡◌, ◌≢◌, refl, ap, subst, ◌∙◌, ltb, ◌==◌, ==_iff, Bool, true, false,
  Option, none, some, List, [], ◌∷◌, ◌++◌, All, arith, pos, format_int, Text, codes, text_eq,
  text_eq_iff, nat_key, text_key, lookup, trim_end, trim_space, is_space, is_digit, parse_int,
}
use irengine.Tests.Sets.{S, empty_list, york, york-IsTerm, york-IsValid}
use irengine.Indexer.Entry.{positional, serialize}
use irengine.Indexer.PostingList.{PostingList, entry_count}
use irengine.Indexer.PostingList.Valid.{IsValid}
use irengine.Constrained.PostingListSet.{
  PostingListSet, sum_lengths, transfer_pl, new_posting_list_set, load, dump,
}
use irengine.Constrained.PostingListSet.RoundTrip.{IsTerm}
use irengine.Constrained.PostingListSet.Consistent.{IsConsistent}
use irengine.Constrained.PostingListSet.Restored.{IsMaker, load-dump-IsConsistent}
use irengine.Constrained.PostingListSet.Sized.{load-dump_size}
use irengine.Constrained.Lexicon.{LoadTests, Container, Lexicon, after_message, remove_swapped}
use irengine.Constrained.Lexicon.Worker.{remove_swapped_lem}
use irengine.Constrained.Lexicon.Memory.{
  evict, retrieve_pls, evict_loop, evict_oldest, drop_oldest, is_loaded, settle_load, split_pls,
  hit_pls, touched, read_pls,
}
use irengine.Constrained.Lexicon.Memory.Kept.{IsSound}
use irengine.Constrained.Lexicon.Memory.Evicted.{Evicts, evict_lem}
use irengine.Constrained.Lexicon.Memory.Retrieves.{HasList, Retrieves}
use irengine.Constrained.Lexicon.Memory.Retrieved.{retrieve_pls_lem}
use irengine.Constrained.Lexicon.Memory.Unlisted.{StaysLoaded, retrieve_pls-unlisted}

abbrev pub new_list : PostingList S
new_list = record empty_list { list = ((7, positional 7 (1 ∷ [])) ∷ [], (tt, tt)); count = 1 }

-- Two terms with three entries.
abbrev pub pair : PostingListSet S
pair = record {
  list_map = (codes "york", york) ∷ (codes "new", new_list) ∷ [];
  pl_init = empty_list;
  size = 3;
  size_needs_refresh = true;
}

new-IsTerm : IsTerm (codes "new")
new-IsTerm = (unfold is_space in refl, unfold trim_end is_space in refl, refl, refl)

new_list-IsValid : IsValid S new_list
new_list-IsValid = record {
  counted = refl;
  held = ((refl, refl, omega arith, (tt, tt)), tt);
  makes = λ d. refl;
}

pub empty_list-IsMaker : IsMaker S empty_list
empty_list-IsMaker = record {
  valid = record { counted = refl; held = tt; makes = λ d. refl };
  bare = refl;
}

pair-IsConsistent : IsConsistent S empty_list pair
pair-IsConsistent = record {
  made = refl;
  listed = (
    (
      york-IsValid,
      refl,
      (
        (
          york-IsTerm,
          (omega arith, (omega arith, tt), (tt, tt)),
          refl,
          unfold serialize format_int in omega arith,
        ),
        (
          (
            york-IsTerm,
            (omega arith, (omega arith, (omega arith, tt)), ((omega arith, tt), (tt, tt))),
            refl,
            unfold serialize format_int in omega arith,
          ),
          tt,
        ),
      ),
    ),
    (
      (
        new_list-IsValid,
        refl,
        (
          (
            new-IsTerm,
            (omega arith, (omega arith, tt), (tt, tt)),
            refl,
            unfold serialize format_int in omega arith,
          ),
          tt,
        ),
      ),
      tt,
    ),
  );
  distinct = (refl, (refl, tt));
  counted = unfold sum_lengths entry_count in refl;
}

abbrev pub container : Container S
container = record { tag = codes "a0"; size = 3; hits = 1; dumps = 0; loads = 0; pls = some pair }

-- A set that is over its size.
abbrev pub full : Lexicon S
full = record {
  max_load = pos 10;
  current_load = pos 3;
  per_pls_load = 2;
  pl_init = empty_list;
  containers = (0, container) ∷ [];
  next = 1;
  pl_set_cache = (codes "a0", 0) ∷ [];
  lru_cache = 0 ∷ [];
  swapped_cache = [];
  in_hand = none;
  disk = [];
  stats = record {
    dump_count = 0;
    load_count = 0;
    hit_count = 0;
    create_count = 0;
    fetch_count = 0;
  };
}

-- All sets are evicted whenever there is a set.
abbrev pub strict : LoadTests
strict = record { above_80 = λ load limit. true; below_95 = ltb; below_75 = ltb }

abbrev pub can_create : Text → Bool
can_create t = true

pub only_one :
    {A : Type 0} (b : Bool) (v w : A) → (if b then some v else none) ≡ some w → (b ≡ true) × (v ≡ w)
only_one true v w h = (refl, cc)
only_one false v w h = absurd (cc)

pub the_container :
    (a : ℕ) (c : Container S)
    → lookup a full.containers ≡ some c
    → ◌≡◌ {A = ℕ} 0 a × (container ≡ c)
the_container a c h =
    let (same, c-eq) = only_one (0 == a) container c h in ((==_iff 0 a).0 same, c-eq)

pub the_tag :
    (tag : Text) (a : ℕ)
    → lookup tag full.pl_set_cache ≡ some a
    → (codes "a0" ≡ tag) × (◌≡◌ {A = ℕ} 0 a)
the_tag tag a h =
    let (same, address) = only_one (text_eq (codes "a0") tag) 0 a h in
    ((text_eq_iff (codes "a0") tag).0 same, address)

pub full-IsSound : IsSound S full
full-IsSound = record {
  maker = empty_list-IsMaker;
  distinct = (refl, tt);
  cached = λ tag a h.
      let (same, address) = the_tag tag a h in
      (
        container,
        subst (λ i. lookup i full.containers ≡ some container) address refl,
        same,
        (pair-IsConsistent, refl),
      );
  recent = ((container, pair, refl, refl, refl), tt);
  apart = (tt, tt);
  fresh = λ a c h. subst (λ i. i < 1) (the_container a c h).0 (omega arith);
  owned = λ a c h.
      let (address, same) = the_container a c h in
      subst (λ i. lookup c.tag full.pl_set_cache ≡ some i) address
        (subst (λ (k : Container S). lookup k.tag full.pl_set_cache ≡ some 0) same refl);
}

evict_lem_example : Evicts S strict full (evict S strict can_create full)
evict_lem_example = evict_lem S strict can_create (λ t. refl) full full-IsSound

york-HasList : HasList S full (codes "york") (codes "a0")
york-HasList a c pls here at loaded over =
    let (address, same) = the_container a c at in
    let set : pair ≡ pls = the_set (ap (λ (k : Container S). k.pls) same ∙ loaded) in
    (york, subst (λ (p : PostingListSet S). lookup (codes "york") p.list_map ≡ some york) set refl)
  where
    the_set : {p : PostingListSet S} → some pair ≡ some p → pair ≡ p
    the_set h = cc

retrieve_pls_lem_example :
    Retrieves S full
      (codes "york")
      (codes "a0")
      (codes "b1")
      (retrieve_pls S strict can_create (codes "b1" ∷ []) full (codes "york") (codes "a0"))
retrieve_pls_lem_example =
    retrieve_pls_lem S strict can_create (λ t. refl) full (codes "york") (codes "a0") (codes "b1")
      [] full-IsSound refl york-HasList

-- The set is split, both sets are evicted, and the new one is read again: it is in memory, and not in the
-- order of the sets in memory.
tag_after : Option (Lexicon S × ℕ × Text) → Option (Text × List ℕ × List ℕ)
tag_after none = none
tag_after (some (lex, a, tag)) = some (tag, lex.lru_cache, lex.swapped_cache)

moved :
    tag_after (retrieve_pls S strict can_create (codes "b1" ∷ []) full (codes "york") (codes "a0"))
    ≡ some (codes "b1", [], 0 ∷ [])
unfolding tag_after retrieve_pls evict_loop evict_oldest drop_oldest is_loaded settle_load split_pls
    hit_pls transfer_pl evict touched entry_count new_posting_list_set read_pls load dump serialize
    format_int trim_space is_space parse_int is_digit after_message
moved = refl

-- The set of `full` on disk only.
abbrev out_container : Container S
out_container = record container { pls = none }

abbrev swapped : Lexicon S
swapped = record full {
  containers = (0, out_container) ∷ [];
  lru_cache = [];
  swapped_cache = 0 ∷ [];
  disk = (codes "a0", dump S pair) ∷ [];
}

out_parts :
    (a : ℕ) (c : Container S)
    → lookup a swapped.containers ≡ some c
    → ◌≡◌ {A = ℕ} 0 a × (out_container ≡ c)
out_parts a c h =
    let (same, c-eq) = only_one (0 == a) out_container c h in ((==_iff 0 a).0 same, c-eq)

swapped-IsSound : IsSound S swapped
swapped-IsSound =
    let (r, reads, ok, views) =
      load-dump-IsConsistent S empty_list pair empty_list-IsMaker pair-IsConsistent in
    record {
      maker = empty_list-IsMaker;
      distinct = (refl, tt);
      cached = λ tag a h.
          let (same, address) = the_tag tag a h in
          (
            out_container,
            subst (λ i. lookup i swapped.containers ≡ some out_container) address refl,
            same,
            (
              dump S pair,
              r,
              refl,
              reads,
              ok,
              load-dump_size S empty_list pair r pair-IsConsistent reads,
            ),
          );
      recent = tt;
      apart = tt;
      fresh = λ a c h. subst (λ i. i < 1) (out_parts a c h).0 (omega arith);
      owned = λ a c h.
          let (address, same) = out_parts a c h in
          subst (λ i. lookup c.tag swapped.pl_set_cache ≡ some i) address
            (subst (λ (k : Container S). lookup k.tag swapped.pl_set_cache ≡ some 0) same refl);
    }

retrieve_pls-unlisted_example :
    (lex' : Lexicon S) × (pls : PostingListSet S) × (retrieve_pls S strict can_create [] swapped
        (codes "york")
        (codes "a0")
      ≡ some (lex', 0, codes "a0"))
    × ((n : ℕ) → StaysLoaded S strict can_create 0 pls n lex')
retrieve_pls-unlisted_example =
    retrieve_pls-unlisted S strict can_create (λ t. refl) swapped (codes "york") (codes "a0") 0
      out_container swapped-IsSound refl refl refl

remove_swapped_lem_example :
    ((l : List ℕ) → All (λ b. b ≢ 4) l → remove_swapped 4 l ≡ l)
    × ((ys : List ℕ) → remove_swapped 4 (4 ∷ ys) ≡ ys)
    × ((xs : List ℕ) (b : ℕ) (ys : List ℕ)
        → All (λ c. c ≢ 4) xs
        → b ≢ 4
        → remove_swapped 4 (xs ++ b ∷ 4 ∷ ys) ≡ xs ++ ys)
remove_swapped_lem_example = remove_swapped_lem 4
