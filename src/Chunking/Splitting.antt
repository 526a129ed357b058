-- ===== src/Chunking/Splitting.antt =====
-- chunking.py, `_split_oversized`: no part has more than the maximal number of tokens, and no token
-- is lost.
use plug_and_play_local_rag.Base.{
  ℕ, zero, suc, ◌+◌, ◌-◌, ◌≤◌, ◌<◌, ◌≡◌, refl, sym, ap, ◌∙◌, subst, inl, inr, List, [], ◌∷◌, none,
  some, arith, leb, leb→le, Bool-cases, length, take, drop, length-take, length-drop, All,
}
use plug_and_play_local_rag.Tokens.{Text, CharClasses, Span, finditer, count_tokens, strip}
use plug_and_play_local_rag.Tokens.Counting.{
  count_tokens-strip, count_tokens-eq, length-finditer, total_tokens,
}
use plug_and_play_local_rag.Tokens.Slices.{nth, finditer-drop}
use plug_and_play_local_rag.Tokens.Ends.{finditer-take}
use plug_and_play_local_rag.Chunking.{Limits, slice, last_span, split_groups, split_oversized}

pub nth-drop :
    (k : ℕ) (l : List Span) {x : Span} {rest : List Span} → drop k l ≡ x ∷ rest → nth l k ≡ some x
nth-drop zero l h = rw h
nth-drop (suc k) [] h = cc
nth-drop (suc k) (y ∷ l) h = nth-drop k l h

nth-take_last :
    (n : ℕ) (x : Span) (l : List Span)
    → nth (x ∷ l) (length (take n l)) ≡ some (last_span x (take n l))
nth-take_last zero x l = refl
nth-take_last (suc n) x [] = refl
nth-take_last (suc n) x (y ∷ l) = nth-take_last n y l

take-length-take {ℓ} : {A : Type ℓ} (n : ℕ) (l : List A) → take (length (take n l)) l ≡ take n l
take-length-take zero l = refl
take-length-take (suc n) [] = refl
take-length-take (suc n) (x ∷ l) = rw (take-length-take n l)

drop-nil {ℓ} : {A : Type ℓ} (n : ℕ) → drop {A = A} n [] ≡ []
drop-nil zero = refl
drop-nil (suc n) = refl

pub drop-drop {ℓ} : {A : Type ℓ} (m n : ℕ) (l : List A) → drop m (drop n l) ≡ drop (n + m) l
drop-drop m zero l = rw (zero_plus)
  where
    zero_plus : 0 + m ≡ m
    zero_plus = omega arith
drop-drop m (suc n) [] = drop-nil m ∙ sym (drop-nil (suc n + m))
drop-drop m (suc n) (x ∷ l) = rw (suc_plus) (drop-drop m n l)
  where
    suc_plus : suc n + m ≡ suc (n + m)
    suc_plus = omega arith

pred_suc : (n : ℕ) → suc n - 1 ≡ n
pred_suc n = omega arith

module _ (chars : CharClasses) where
  -- Cut at the first and the last token of a group, the text has the tokens of the group.
  pub count-slice :
      (text : Text) (k n : ℕ) (x : Span) (rest : List Span)
      → drop k (finditer chars 0 none text) ≡ x ∷ rest
      → count_tokens chars (slice text x.0 (last_span x (take n rest)).1)
        ≡ suc (length (take n rest))
  count-slice text k n x rest h =
      let from =
        finditer-drop chars text k x.0 x.1 (nth-drop k (finditer chars 0 none text) h) ∙ h in
      let last = last_span x (take n rest) in
      let upto =
        finditer-take chars x.0 (drop x.0 text) (length (take n rest)) last.0 last.1
          (ap (λ (l : List Span). nth l (length (take n rest))) from ∙ nth-take_last n x rest) in
      let cut = slice text x.0 last.1 in
      let group =
        ap (λ (l : List Span). take (suc (length (take n rest))) l) from
        ∙ ap (λ (l : List Span). x ∷ l) (take-length-take n rest) in
      count_tokens-eq chars cut
      ∙ sym (length-finditer chars x.0 none cut)
      ∙ ap (λ (l : List Span). length l) (upto ∙ group)

  parts_of_groups :
      (text : Text) (fuel size k : ℕ) (matches : List Span)
      → drop k (finditer chars 0 none text) ≡ matches
      → length matches ≤ fuel
      → All
          (λ part. count_tokens chars part ≤ suc size)
          (split_groups chars fuel (suc size) text matches)
        × (total_tokens chars (split_groups chars fuel (suc size) text matches) ≡ length matches)
  unfolding split_groups total_tokens
  parts_of_groups text zero size k [] h l = (tt, refl)
  parts_of_groups text zero size k (m ∷ matches) h l = absurd (omega arith)
  parts_of_groups text (suc fuel) size k [] h l = (tt, refl)
  parts_of_groups text (suc fuel) size k (m ∷ matches) h l =
      let (bounded, counted) =
        parts_of_groups text fuel size (k + suc size) (drop size matches)
          (sym (drop-drop (suc size) k (finditer chars 0 none text))
            ∙ ap (λ (r : List Span). drop (suc size) r) h)
          (omega (arith, length-drop size matches)) in
      let here : count_tokens chars
            (strip chars (slice text m.0 (last_span m (take size matches)).1))
          ≡ suc (length (take size matches)) =
        count_tokens-strip chars (slice text m.0 (last_span m (take size matches)).1)
        ∙ count-slice text k size m matches h in
      rw (pred_suc size) (
        (omega (arith, here, length-take size matches), bounded),
        omega (arith, here, counted, length-take size matches, length-drop size matches),
      )

  whole :
      (text : Text) (n : ℕ)
      → length (finditer chars 0 none text) ≤ n
      → All (λ part. count_tokens chars part ≤ n) (text ∷ [])
        × (total_tokens chars (text ∷ []) ≡ count_tokens chars text)
  unfolding count_tokens total_tokens
  whole text n l = ((l, tt), omega arith)

  groups_of_text :
      (text : Text) (size : ℕ)
      → let matches = finditer chars 0 none text in
        All
          (λ part. count_tokens chars part ≤ suc size)
          (split_groups chars (length matches) (suc size) text matches)
        × (total_tokens chars (split_groups chars (length matches) (suc size) text matches)
            ≡ count_tokens chars text)
  unfolding count_tokens
  groups_of_text text size =
      parts_of_groups text (length (finditer chars 0 none text)) size 0 (finditer chars 0 none text)
        refl (omega arith)

  -- With a positive maximum, every part has at most that many tokens, and the parts together have as
  -- many tokens as the text.
  pub split_oversized-tokens :
      (limits : Limits) (text : Text)
      → 0 < limits.max_tokens
      → All
          (λ part. count_tokens chars part ≤ limits.max_tokens)
          (split_oversized chars limits text)
        × (total_tokens chars (split_oversized chars limits text) ≡ count_tokens chars text)
  unfolding split_oversized
  split_oversized-tokens limits text h =
      let matches = finditer chars 0 none text in
      elim (Bool-cases (leb (length matches) limits.max_tokens)) [
        | inl small ↦ rw small (whole text limits.max_tokens (leb→le _ _ small))
        | inr large ↦ rw large (
            subst
              (λ (n : ℕ).
                All (λ part. count_tokens chars part ≤ n)
                  (split_groups chars (length matches) n text matches)
                × (total_tokens chars (split_groups chars (length matches) n text matches)
                    ≡ count_tokens chars text))
              (positive limits.max_tokens h) (groups_of_text text (limits.max_tokens - 1)))
      ]
    where
      positive : (n : ℕ) → 0 < n → suc (n - 1) ≡ n
      positive n l = omega arith
