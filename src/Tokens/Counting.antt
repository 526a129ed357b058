-- ===== src/Tokens/Counting.antt =====
-- Token counts add up over joined texts, and stripping does not change them.
use plug_and_play_local_rag.Base.{
  ℕ, ◌+◌, ◌≡◌, refl, ap, ◌∙◌, List, [], ◌∷◌, ◌++◌, Bool, true, false, Option, none, some, arith,
  if◌then◌else◌, length,
}
use plug_and_play_local_rag.Tokens.{
  Text, CharClasses, finditer, count_tokens, lstrip, rstrip, strip, join, paragraph_break,
}

abbrev pub pending : Bool → ℕ
pending b = if b then 1 else 0

module _ (chars : CharClasses) where
  open chars use {is_word, is_space, disjoint, newline}

  -- The number of matches, by one pass that knows whether a word is open.
  unfoldable pub count_from : Bool → Text → ℕ
  count_from in_word [] = pending in_word
  count_from in_word (c ∷ s) =
      let word = count_from true s in
      let other = count_from false s in
      if is_word c then word else pending in_word + (if is_space c then other else 1 + other)

  abbrev is_open : Option ℕ → Bool
  is_open none = false
  is_open (some a) = true

  pub length-finditer :
      (i : ℕ) (o : Option ℕ) (s : Text) → length (finditer chars i o s) ≡ count_from (is_open o) s
  unfolding finditer count_from
  length-finditer i none [] = refl
  length-finditer i (some a) [] = refl
  length-finditer i none (c ∷ s) =
      ground (arith, length-finditer (i + 1) (some i) s, length-finditer (i + 1) none s)
  length-finditer i (some a) (c ∷ s) =
      ground (arith, length-finditer (i + 1) (some a) s, length-finditer (i + 1) none s)

  pub count_tokens-eq : (s : Text) → count_tokens chars s ≡ count_from false s
  unfolding count_tokens
  count_tokens-eq s = length-finditer 0 none s

  -- A space ends the open word.
  count_from-append :
      (b : Bool) (s t : Text) (c : ℕ)
      → is_space c ≡ true
      → count_from b (s ++ c ∷ t) ≡ count_from b s + count_from false t
  unfolding count_from
  count_from-append b [] t c h = ground (arith, disjoint c)
  count_from-append b (d ∷ s) t c h =
      ground (arith, count_from-append true s t c h, count_from-append false s t c h)

  space_first :
      (c : ℕ) (t : Text) → is_space c ≡ true → count_from false (c ∷ t) ≡ count_from false t
  unfolding count_from
  space_first c t h = ground (arith, disjoint c)

  -- Two texts joined by a paragraph break have the tokens of both.
  pub count_tokens-break :
      (s t : Text)
      → count_tokens chars (s ++ (paragraph_break ++ t))
        ≡ count_tokens chars s + count_tokens chars t
  count_tokens-break s t =
      rw (count_tokens-eq (s ++ (paragraph_break ++ t)), count_tokens-eq s, count_tokens-eq t)
        (count_from-append false s (10 ∷ t) 10 newline
          ∙ ap (λ n. count_from false s + n) (space_first 10 t newline))

  unfoldable pub total_tokens : List Text → ℕ
  total_tokens [] = 0
  total_tokens (t ∷ rest) = count_tokens chars t + total_tokens rest

  pub count_tokens-join :
      (parts : List Text) → count_tokens chars (join paragraph_break parts) ≡ total_tokens parts
  unfolding join total_tokens
  count_tokens-join [] = unfold count_tokens finditer in refl
  count_tokens-join (t ∷ []) = omega arith
  count_tokens-join (t ∷ u ∷ rest) =
      omega (
        arith,
        count_tokens-break t (join paragraph_break (u ∷ rest)),
        count_tokens-join (u ∷ rest),
      )

  count_from-lstrip : (s : Text) → count_from false (lstrip chars s) ≡ count_from false s
  unfolding lstrip
  count_from-lstrip [] = refl
  count_from-lstrip (c ∷ s) = ground (arith, count_from-lstrip s, space_first c s)

  count_from-rstrip : (b : Bool) (s : Text) → count_from b (rstrip chars s) ≡ count_from b s
  unfolding rstrip count_from
  count_from-rstrip b [] = refl
  count_from-rstrip b (c ∷ s) =
      ground (arith, count_from-rstrip true s, count_from-rstrip false s, disjoint c)

  pub count_tokens-strip : (s : Text) → count_tokens chars (strip chars s) ≡ count_tokens chars s
  unfolding strip
  count_tokens-strip s =
      rw (count_tokens-eq (rstrip chars (lstrip chars s)), count_tokens-eq s)
        (count_from-rstrip false (lstrip chars s) ∙ count_from-lstrip s)
