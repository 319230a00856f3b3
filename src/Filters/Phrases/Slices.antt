-- ===== src/Filters/Phrases/Slices.antt =====
-- The slices of the index loop of `NotifyDocComplete`, and the end of one of its rounds.
use irengine.Common.{
  ◌≤◌, ◌<◌, ℕ, suc, ◌+◌, ◌-◌, ◌==◌, ◌≡◌, refl, ap, ◌∙◌, false, some, List, [], ◌∷◌, ◌++◌, length,
  length-append, text_key, arith, Bool-cases, inl, inr,
}
use irengine.FileReader.Token.{Token}
use irengine.Filters.Phrases.{
  take, drop, slice, Loop, Round, broken, panicked, continued, end_round, clamp,
}

take-append : (xs ys : List Token) → take (length xs) (xs ++ ys) ≡ xs
take-append [] ys = refl
take-append (x ∷ xs) ys = ap (λ l. x ∷ l) (take-append xs ys)

drop-append : (xs ys : List Token) → drop (length xs) (xs ++ ys) ≡ ys
drop-append [] ys = refl
drop-append (x ∷ xs) ys = drop-append xs ys

pub in_range :
    (l : List Token) (lo hi : ℕ)
    → lo ≤ hi
    → hi ≤ length l
    → slice l lo hi ≡ some (take (hi - lo) (drop lo l))
unfolding slice
in_range l lo hi p q = ground arith

-- The slice of the middle part is that part.
pub slice-middle :
    (xs ys zs : List Token) → slice (xs ++ (ys ++ zs)) (length xs) (length xs + length ys) ≡ some ys
slice-middle xs ys zs =
    in_range (xs ++ (ys ++ zs)) (length xs) (length xs + length ys) (omega arith) (ends xs ys zs)
    ∙ ap some (
        ap (λ k. take k (drop (length xs) (xs ++ (ys ++ zs)))) (offset (length xs) (length ys))
        ∙ ap (take (length ys)) (drop-append xs (ys ++ zs))
        ∙ take-append ys zs)
  where
    offset : (a b : ℕ) → a + b - a ≡ b
    offset a b = omega arith

    ends : (xs ys zs : List Token) → length xs + length ys ≤ length (xs ++ (ys ++ zs))
    ends xs ys zs = omega (arith, length-append xs (ys ++ zs), length-append ys zs)

-- The loop's variables at the phrase that follows `before`.
abbrev pub at_phrase : List Token → List Token → ℕ → List Token → Loop
at_phrase before phrase n sent = record {
  start_idx = length before;
  end_idx = length before + length phrase;
  position_counter = n;
  sent = sent;
}

clamp-inside : (n : ℕ) (l : Loop) → l.end_idx < n → clamp n l ≡ l
unfolding clamp
clamp-inside n l h = ground arith

clamp-outside : (n : ℕ) (l : Loop) → n ≤ l.end_idx → clamp n l ≡ record l { end_idx = n - 1 }
unfolding clamp
clamp-outside n l h = ground arith

module _ (buffer : List Token) where
  measure :
      (before phrase tokens : List Token)
      → buffer ≡ before ++ (phrase ++ tokens)
      → length buffer ≡ length before + (length phrase + length tokens)
  measure before phrase tokens b =
      ap length b
      ∙ omega (arith, length-append before (phrase ++ tokens), length-append phrase tokens)

  -- With a token to come, the next round has the phrase.
  pub end_round-inside :
      (before phrase : List Token) (u : Token) (us : List Token) (n : ℕ) (sent : List Token)
      → buffer ≡ before ++ (phrase ++ u ∷ us)
      → end_round buffer (at_phrase before phrase n sent)
        ≡ continued phrase (at_phrase before phrase n sent)
  unfolding end_round
  end_round-inside before phrase u us n sent b =
      let size = measure before phrase (u ∷ us) b in
      let inside =
        clamp-inside (length buffer) (at_phrase before phrase n sent) (omega (arith, size)) in
      rw
        (
          not_end (length before) (length phrase) (length us) size,
          inside,
          (ap (λ l. slice l (length before) (length before + length phrase)) b
              ∙ slice-middle before phrase (u ∷ us)),
        )
        (ap (λ l. continued phrase l) inside)
    where
      not_end : (a b c : ℕ) → length buffer ≡ a + (b + suc c) → (a == length buffer) ≡ false
      not_end a b c size = ground arith

  -- After the last token, the loop ends with what it has sent.
  abbrev pub IsLast : List Token → Round → Type 0
  IsLast sent (broken s) = s ≡ sent
  IsLast sent panicked = ⊥
  IsLast sent (continued terms l) = l.sent ≡ sent

  pub end_round-IsLast :
      (before phrase : List Token) (n : ℕ) (sent : List Token)
      → buffer ≡ before ++ (phrase ++ [])
      → IsLast sent (end_round buffer (at_phrase before phrase n sent))
  unfolding end_round
  end_round-IsLast before phrase n sent b =
      let size = measure before phrase [] b in
      elim (Bool-cases (length before == length buffer)) [
        | inl e ↦ rw (e, end_round) refl
        | inr e ↦
            let out =
              clamp-outside (length buffer) (at_phrase before phrase n sent)
                (omega (arith, size)) in
            rw
              (
                e,
                end_round,
                out,
                in_range buffer (length before) (length buffer - 1) (before_end size e)
                    (omega arith),
              )
              (ap (λ l. l.sent) out)
      ]
    where
      before_end :
          length buffer ≡ length before + (length phrase + 0)
          → (length before == length buffer) ≡ false
          → length before ≤ length buffer - 1
      before_end size e = ground arith
