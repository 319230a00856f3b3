-- ===== src/Filters/Phrases/Rounds.antt =====
-- The index loop of `NotifyDocComplete` against the phrases of a document.
use irengine.Common.{
  ℕ, ◌+◌, ◌≡◌, refl, sym, ap, ◌∙◌, Bool, Option, none, some, List, [], ◌∷◌, ◌++◌, append_assoc,
  append-nil, length, length-append, Text, Dict, text_key, lookup, arith, Option-cases,
}
use irengine.FileReader.Token.{Token}
use irengine.Filters.Phrases.{
  TerminateReason, non_terminal, diff_phrase_id, stop_word, max_len, PhraseFilter, reset,
  new_phrase_filter, ends_phrase, Loop, Round, broken, panicked, continued, end_round, send_phrase,
  switch, phrase_loop, document_stopwords, start, notify_doc_complete,
}
use irengine.Filters.Phrases.Windows.{tail, ended, phrases, numbered}
use irengine.Filters.Phrases.Slices.{
  in_range, at_phrase, IsLast, end_round-inside, end_round-IsLast,
}

abbrev loop_at : ℕ → ℕ → ℕ → List Token → Loop
loop_at a b n sent = record { start_idx = a; end_idx = b; position_counter = n; sent = sent }

same_loop :
    (a b a' b' n : ℕ) (sent : List Token)
    → a ≡ a'
    → b ≡ b'
    → loop_at a b n sent ≡ loop_at a' b' n sent
same_loop a b a' b' n sent p q = ap (λ k. loop_at k b n sent) p ∙ ap (λ k. loop_at a' k n sent) q

-- The phrase that is sent is the next one, if there is one.
emitted :
    (before phrase : List Token) (n : ℕ) (sent : List Token) (rest : List (List Token))
    → (send_phrase (at_phrase before phrase n sent) phrase).sent
        ++ numbered (send_phrase (at_phrase before phrase n sent) phrase).position_counter rest
      ≡ sent ++ numbered n (ended phrase rest)
unfolding send_phrase numbered
emitted before [] n sent rest = refl
emitted before (p ∷ ps) n sent rest = append_assoc sent _ _

abbrev firsts : List Token → List Token
firsts [] = []
firsts (t ∷ ts) = t ∷ []

firsts-tail : (l : List Token) → firsts l ++ tail l ≡ l
firsts-tail [] = refl
firsts-tail (t ∷ ts) = refl

regroup :
    (a b c : List Token) (t : Token) (ts : List Token)
    → a ++ ((b ++ c) ++ t ∷ ts) ≡ (a ++ b) ++ ((c ++ t ∷ []) ++ ts)
regroup a b c t ts =
    ap (λ m. a ++ m) (append_assoc b c (t ∷ ts))
    ∙ sym (append_assoc a b (c ++ t ∷ ts))
    ∙ ap (λ m. (a ++ b) ++ m) (sym (append_assoc c (t ∷ []) ts))

module _ (stopwords : Dict Text ℕ) (phrase_len : ℕ) (buffer : List Token) where
  abbrev Sends : List Token → List Token → ℕ → List Token → Option (List Token) → Type 0
  Sends phrase tokens n sent r =
      r ≡ some (sent ++ numbered n (phrases stopwords phrase_len phrase tokens))

  abbrev rounds : ℕ → List Token → Round → Option (List Token)
  rounds i tokens r = elim r [
    | broken sent ↦ some sent
    | panicked ↦ none
    | continued terms l' ↦ phrase_loop stopwords phrase_len buffer (i + 1) tokens terms l'
  ]

  last_round :
      (i : ℕ) (sent : List Token) (r : Round) → IsLast buffer sent r → rounds i [] r ≡ some sent
  unfolding phrase_loop
  last_round i sent (broken s) h = ap some h
  last_round i sent panicked h = absurd h
  last_round i sent (continued terms l) h = ap some h

  -- The loop from a round's end on.
  round_lem :
      (i : ℕ) (before phrase tokens : List Token) (n : ℕ) (sent : List Token)
      → buffer ≡ before ++ (phrase ++ tokens)
      → Sends phrase tokens n sent (
          phrase_loop stopwords phrase_len buffer
            (i + 1)
            tokens
            phrase
            (at_phrase before phrase n sent))
      → Sends phrase tokens n sent
          (rounds i tokens (end_round buffer (at_phrase before phrase n sent)))
  unfolding numbered phrases
  round_lem i before phrase [] n sent b h =
      last_round i sent (end_round buffer (at_phrase before phrase n sent))
        (end_round-IsLast buffer before phrase n sent b)
      ∙ ap some (sym (append-nil sent))
  round_lem i before phrase (u ∷ us) n sent b h =
      ap (rounds i (u ∷ us)) (end_round-inside buffer before phrase u us n sent b) ∙ h

  -- A round whose switch leaves `phrase'` after `before'`.
  step :
      (r : TerminateReason) (i : ℕ) (phrase : List Token) (t : Token) (ts : List Token) (l : Loop)
      (before' phrase' : List Token) (n' : ℕ) (sent' : List Token)
      → ends_phrase stopwords phrase_len phrase t ≡ r
      → switch r i phrase l ≡ at_phrase before' phrase' n' sent'
      → buffer ≡ before' ++ (phrase' ++ ts)
      → Sends phrase' ts n' sent' (
          phrase_loop stopwords phrase_len buffer
            (i + 1)
            ts
            phrase'
            (at_phrase before' phrase' n' sent'))
      → Sends phrase' ts n' sent' (phrase_loop stopwords phrase_len buffer i (t ∷ ts) phrase l)
  unfolding phrase_loop
  step r i phrase t ts l before' phrase' n' sent' e w b h =
      ap (λ r. rounds i ts (end_round buffer (switch r i phrase l))) e
      ∙ ap (λ l. rounds i ts (end_round buffer l)) w
      ∙ round_lem i before' phrase' ts n' sent' b h

  abbrev phrase_case : TerminateReason → List Token → Token → List Token → List (List Token)
  phrase_case r phrase t ts = elim r [
    | stop_word ↦ ended phrase (phrases stopwords phrase_len [] ts)
    | diff_phrase_id ↦ ended phrase (phrases stopwords phrase_len (t ∷ []) ts)
    | max_len ↦ ended phrase (phrases stopwords phrase_len (tail phrase ++ t ∷ []) ts)
    | non_terminal ↦ phrases stopwords phrase_len (phrase ++ t ∷ []) ts
  ]

  -- A full phrase has a first term.
  length-firsts :
      (phrase : List Token) (t : Token)
      → ends_phrase stopwords phrase_len phrase t ≡ max_len
      → length (firsts phrase) ≡ 1
  unfolding ends_phrase
  length-firsts [] t e = ground (arith, Option-cases (lookup t.text stopwords))
  length-firsts (p ∷ ps) t e = refl

  module _ (i : ℕ) (before phrase : List Token) (t : Token) (ts : List Token) (n : ℕ)
      (sent : List Token) (b : buffer ≡ before ++ (phrase ++ t ∷ ts))
      (c : i ≡ length before + length phrase)
      (ih : ((before' phrase' : List Token) (n' : ℕ) (sent' : List Token)
        → buffer ≡ before' ++ (phrase' ++ ts)
        → i + 1 ≡ length before' + length phrase'
        → Sends phrase' ts n' sent' (
            phrase_loop stopwords phrase_len buffer
              (i + 1)
              ts
              phrase'
              (at_phrase before' phrase' n' sent')))) where
    abbrev l : Loop
    l = at_phrase before phrase n sent

    abbrev n' : ℕ
    n' = (send_phrase l phrase).position_counter

    abbrev sent' : List Token
    sent' = (send_phrase l phrase).sent

    finish :
        (r : TerminateReason) (before' phrase' : List Token) (k : ℕ) (out : List Token)
        → ends_phrase stopwords phrase_len phrase t ≡ r
        → switch r i phrase l ≡ at_phrase before' phrase' k out
        → buffer ≡ before' ++ (phrase' ++ ts)
        → i + 1 ≡ length before' + length phrase'
        → out ++ numbered k (phrases stopwords phrase_len phrase' ts)
          ≡ sent ++ numbered n (phrase_case r phrase t ts)
        → Sends phrase (t ∷ ts) n sent (phrase_loop stopwords phrase_len buffer i (t ∷ ts) phrase l)
    unfolding phrases
    finish r before' phrase' k out e w b' c' q =
        step r i phrase t ts l before' phrase' k out e w b' (ih before' phrase' k out b' c')
        ∙ ap some q
        ∙ sym (ap (λ r. some (sent ++ numbered n (phrase_case r phrase t ts))) e)

    round :
        (r : TerminateReason)
        → ends_phrase stopwords phrase_len phrase t ≡ r
        → Sends phrase (t ∷ ts) n sent (phrase_loop stopwords phrase_len buffer i (t ∷ ts) phrase l)
    unfolding switch
    round stop_word e =
        let before' : List Token = before ++ (phrase ++ t ∷ []) in
        let size : i + 1 ≡ length before' =
          omega
            (arith, length-append before (phrase ++ t ∷ []), length-append phrase (t ∷ []), c) in
        let size' : i + 1 ≡ length before' + 0 = omega (arith, size) in
        finish stop_word before' [] n' sent' e
          (same_loop (i + 1) (i + 1) (length before') (length before' + 0) n' sent' size size')
          (b
            ∙ sym (
                append_assoc before (phrase ++ t ∷ []) ts
                ∙ ap (λ m. before ++ m) (append_assoc phrase (t ∷ []) ts)))
          size' (emitted before phrase n sent _)
    round diff_phrase_id e =
        let before' : List Token = before ++ phrase in
        let size : i ≡ length before' = omega (arith, length-append before phrase, c) in
        let size' : i + 1 ≡ length before' + 1 = omega (arith, size) in
        finish diff_phrase_id before' (t ∷ []) n' sent' e
          (same_loop i (i + 1) (length before') (length before' + 1) n' sent' size size')
          (b ∙ sym (append_assoc before phrase (t ∷ ts))) size' (emitted before phrase n sent _)
    round max_len e =
        let before' : List Token = before ++ firsts phrase in
        let phrase' : List Token = tail phrase ++ t ∷ [] in
        let first = length-firsts phrase t e in
        let whole = ap length (firsts-tail phrase) in
        let size : length before + 1 ≡ length before' =
          omega (arith, length-append before (firsts phrase), first) in
        let size' : length before + length phrase + 1 ≡ length before' + length phrase' = omega (
          arith,
          size,
          length-append (tail phrase) (t ∷ []),
          whole,
          length-append (firsts phrase) (tail phrase),
          first,
        ) in
        finish max_len before' phrase' n' sent' e
          (same_loop (length before + 1) (length before + length phrase + 1) (length before')
            (length before' + length phrase') n' sent' size size')
          (b
            ∙ ap (λ m. before ++ (m ++ t ∷ ts)) (sym (firsts-tail phrase))
            ∙ regroup before (firsts phrase) (tail phrase) t ts)
          (omega (arith, size', c)) (emitted before phrase n sent _)
    round non_terminal e =
        let size' : length before + length phrase + 1 ≡ length before + length (phrase ++ t ∷ []) =
          omega (arith, length-append phrase (t ∷ [])) in
        finish non_terminal before (phrase ++ t ∷ []) n sent e
          (ap (λ k. loop_at (length before) k n sent) size')
          (b ∙ ap (λ m. before ++ m) (sym (append_assoc phrase (t ∷ []) ts)))
          (omega (arith, size', c)) refl

  loop_lem :
      (i : ℕ) (before phrase tokens : List Token) (n : ℕ) (sent : List Token)
      → buffer ≡ before ++ (phrase ++ tokens)
      → i ≡ length before + length phrase
      → Sends phrase tokens n sent
          (phrase_loop stopwords phrase_len buffer i tokens phrase (at_phrase before phrase n sent))
  unfolding phrase_loop numbered phrases
  loop_lem i before phrase [] n sent b c = ap some (sym (append-nil sent))
  loop_lem i before phrase (t ∷ ts) n sent b c =
      round i before phrase t ts n sent b c
        (λ before' phrase' n' sent'. loop_lem (i + 1) before' phrase' ts n' sent')
        (ends_phrase stopwords phrase_len phrase t) refl

-- At a document's end, the filter does not panic, sends the phrases of the document with the
-- positions from 0 on, and is as new for the next document. The stop words that part the phrases are the
-- terms that `document_stopwords` leaves, which are none if the document has fewer than 25 tokens.
pub notify_doc_complete_lem :
    (below_limit : ℕ → ℕ → Bool) (f : PhraseFilter)
    → notify_doc_complete below_limit f
      ≡ some (
        new_phrase_filter f.phrase_len,
        numbered 0 (phrases (document_stopwords below_limit f) f.phrase_len [] f.tokenbuffer),
      )
unfolding notify_doc_complete new_phrase_filter
notify_doc_complete_lem below_limit f =
    ap (λ o. after_slice below_limit f o) (in_range f.tokenbuffer 0 0 (omega arith) (omega arith))
    ∙ ap (λ o. after_loop f o)
        (loop_lem (document_stopwords below_limit f) f.phrase_len f.tokenbuffer 0 [] []
          f.tokenbuffer 0 [] refl refl)
  where
    after_loop : PhraseFilter → Option (List Token) → Option (PhraseFilter × List Token)
    after_loop f o = elim o [ none ↦ none | some sent ↦ some (reset f, sent) ]

    after_slice :
        (ℕ → ℕ → Bool) → PhraseFilter → Option (List Token) → Option (PhraseFilter × List Token)
    after_slice below_limit f o = elim o [
      | none ↦ none
      | some terms ↦
          elim (phrase_loop (document_stopwords below_limit f) f.phrase_len f.tokenbuffer 0
            f.tokenbuffer terms start) [ none ↦ none | some sent ↦ some (reset f, sent) ]
    ]
