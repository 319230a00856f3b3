-- ===== src/Tests/Filters.antt =====
-- The filters on a few tokens.
use irengine.Common.{
  format_int, is_digit, ◌+◌, ◌<◌, ◌≡◌, ◌↔◌, refl, true, false, none, some, List, [], ◌∷◌, ◌++◌,
  arith, codes, text_key, All, Text, join, Lacks, is_hyphen, parse_int,
}
use irengine.FileReader.Token.{Token, clone_with_text}
use irengine.Tests.{word, doc_end}
use irengine.Filters.Plumbing.{stage, run}
use irengine.Filters.Plumbing.Chain.{Delimits}
use irengine.Filters.Words.{slash_apply}
use irengine.Filters.Words.Slash.{text_list, slash_apply-join}
use irengine.Filters.Hyphens.{hyphen_apply}
use irengine.Filters.Hyphens.Laws.{IsWord, hyphen_texts, hyphen_apply_lem}
use irengine.Filters.DateText.{atoi}
use irengine.Filters.Dates.{
  DateFilter, date_day_month, new_date_filter, make_date_repr, try_match_day, date_apply,
  date_filter,
}
use irengine.Filters.Dates.Laws.{try_match_day_lem}
use irengine.Filters.Dates.States.{IsReady, date_apply-IsReady}
use irengine.Filters.Dates.Pending.{in_state, run-pending}
use irengine.Filters.Phrases.{
  PhraseFilter, new_phrase_filter, count_of, document_stopwords, notify_doc_complete,
}
use irengine.Filters.Phrases.Windows.{phrases, numbered}
use irengine.Filters.Phrases.Rounds.{notify_doc_complete_lem}
use irengine.Filters.Phrases.Sound.{IsPhrase, phrases-IsPhrase}
use irengine.Filters.Phrases.Counts.{apply_all, occurrences, IsBounded, apply_all_lem}
use irengine.Filters.Sequence.{single_term_filter_sequence}
use irengine.Filters.Sequence.Documents.{single_term-Delimits}

abbrev tokens : List Token
tokens = word (codes "March") 7 1 ∷ word (codes "3rd") 7 2 ∷ word (codes "a/b") 7 3 ∷ doc_end 7 ∷ []

single_term-Delimits_example : Delimits (single_term_filter_sequence 2012)
single_term-Delimits_example = single_term-Delimits 2012

slash_apply-join_example :
    (join b'/' (text_list (slash_apply (word (codes "and/or") 7 1))) ≡ codes "and/or")
    × All (Lacks b'/') (text_list (slash_apply (word (codes "and/or") 7 1)))
slash_apply-join_example = slash_apply-join (word (codes "and/or") 7 1)

is_up : IsWord (codes "up")
unfolding is_hyphen is_digit
is_up = (λ e. absurd (cc e), ((refl, refl), ((refl, refl), tt)))

is_to : IsWord (codes "to")
unfolding is_hyphen is_digit
is_to = (λ e. absurd (cc e), ((refl, refl), ((refl, refl), tt)))

is_date : IsWord (codes "date")
unfolding is_hyphen is_digit
is_date = (λ e. absurd (cc e), ((refl, refl), ((refl, refl), ((refl, refl), ((refl, refl), tt)))))

hyphen_apply_lem_example :
    text_list (hyphen_apply (word (codes "up-to-date") 7 1))
    ≡ hyphen_texts (codes "up" ∷ codes "to" ∷ codes "date" ∷ [])
hyphen_apply_lem_example =
    hyphen_apply_lem (word (codes "up-to-date") 7 1) (codes "up") (codes "to") (codes "date" ∷ [])
      refl (is_up, (is_to, (is_date, tt)))

abbrev pending : DateFilter
pending = record {
  have_partial = true;
  matches = record { month = some (codes "03"); day = some (codes "03"); year = none };
  state = date_day_month;
}

try_match_day_lem_example :
    ((try_match_day pending (word (codes "31st") 7 2)).1 ≡ true) ↔ ((0 < 31) × (31 < 31))
try_match_day_lem_example =
    try_match_day_lem pending (word (codes "31st") 7 2) 31 (codes "st") (omega arith)
      (refl, (refl, tt)) (unfold format_int in refl)

date_apply-IsReady_example : IsReady (date_apply 2012 pending (word (codes "1999") 7 3)).0
date_apply-IsReady_example =
    date_apply-IsReady (word (codes "1999") 7 3) 2012 pending ((_, refl), (_, refl), refl)

run-pending_example :
    (run
      (stage (date_filter 2012))
      (in_state 2012 pending)
      (doc_end 7 ∷ word (codes "new") 9 1 ∷ [])).1
    ≡ doc_end 7
      ∷ clone_with_text (word (codes "new") 9 1) (make_date_repr pending.matches ∷ [])
      ∷ (date_apply 2012 new_date_filter (word (codes "new") 9 1)).1
run-pending_example =
    run-pending 2012 pending (doc_end 7) (word (codes "new") 9 1) refl refl refl refl refl refl
      (unfold atoi parse_int in refl)

abbrev filled : PhraseFilter
filled = record {
  stopwords = (codes "new", 1) ∷ (codes "york", 2) ∷ [];
  phrase_len = 2;
  maxfreq = 2;
  tokenbuffer = word (codes "new") 7 1 ∷ word (codes "york") 7 2 ∷ word (codes "york") 7 3 ∷ [];
}

notify_doc_complete_lem_example :
    notify_doc_complete (λ n m. false) filled
    ≡ some (
      new_phrase_filter 2,
      numbered 0 (phrases (document_stopwords (λ n m. false) filled) 2 [] filled.tokenbuffer),
    )
notify_doc_complete_lem_example = notify_doc_complete_lem (λ n m. false) filled

phrases-IsPhrase_example :
    All
      (IsPhrase ((codes "the", 9) ∷ []) 2 filled.tokenbuffer)
      (phrases ((codes "the", 9) ∷ []) 2 [] filled.tokenbuffer)
phrases-IsPhrase_example = phrases-IsPhrase ((codes "the", 9) ∷ []) 2 filled.tokenbuffer

abbrev empty_filter : PhraseFilter
empty_filter = record { stopwords = []; phrase_len = 2; maxfreq = 0; tokenbuffer = [] }

apply_all_lem_example :
    ((apply_all empty_filter tokens).tokenbuffer ≡ [] ++ tokens)
    × ((x : Text)
        → count_of x (apply_all empty_filter tokens).stopwords
          ≡ count_of x empty_filter.stopwords + occurrences x tokens)
    × IsBounded (apply_all empty_filter tokens)
apply_all_lem_example = apply_all_lem empty_filter tokens (λ x. omega arith)
