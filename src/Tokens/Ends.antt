-- ===== src/Tokens/Ends.antt =====
-- Cutting a text where a token ends keeps exactly the tokens up to there.
use plug_and_play_local_rag.Base.{
  ℕ, zero, suc, ◌+◌, ◌-◌, ◌≤◌, ◌<◌, ◌≡◌, ap, inl, inr, List, [], ◌∷◌, true, false, Option, none,
  some, arith, Bool-cases, take,
}
use plug_and_play_local_rag.Tokens.{Text, CharClasses, Span, close_word, finditer}
use plug_and_play_local_rag.Tokens.Slices.{nth, finditer-word, finditer-space, finditer-sign}

module _ (chars : CharClasses) where
  open chars use {is_word, is_space}

  -- Up to `b`, `s` at `i` has the tokens `rest`.
  Keeps : ℕ → Option ℕ → ℕ → Text → List Span → Type 0
  Keeps i o b s rest = (i ≤ b) × (finditer chars i o (take (b - i) s) ≡ rest)

  Fresh : ℕ → Text → Type 0
  Fresh i s =
      (k a b : ℕ)
      → nth (finditer chars i none s) k ≡ some (a, b)
      → (i < b) × (finditer chars i none (take (b - i) s) ≡ take (suc k) (finditer chars i none s))

  InWord : ℕ → ℕ → Text → Type 0
  InWord i w s =
      (k a b : ℕ)
      → nth (finditer chars i (some w) s) k ≡ some (a, b)
      → (i ≤ b)
        × (finditer chars i (some w) (take (b - i) s) ≡ take (suc k) (finditer chars i (some w) s))

  take-step :
      (i b c : ℕ) (s : Text)
      → i < b
      → ◌≡◌ {A = Text} (take (b - i) (c ∷ s)) (c ∷ take (b - (i + 1)) s)
  take-step i b c s l = peel (b - i) (b - (i + 1)) (omega arith)
    where
      peel : (n m : ℕ) → n ≡ suc m → ◌≡◌ {A = Text} (take n (c ∷ s)) (c ∷ take m s)
      peel n m e = rw e

  span_end : {i j a b : ℕ} → ◌≡◌ {A = Option Span} (some (i, j)) (some (a, b)) → b ≡ j
  span_end h = ground arith

  Fresh-word : (i c : ℕ) (s : Text) → is_word c ≡ true → InWord (i + 1) i s → Fresh i (c ∷ s)
  unfolding Fresh InWord
  Fresh-word i c s word ih k a b h =
      let (l, e) = ih k a b (rw (finditer-word chars i none c s word) at h) in
      (
        omega arith,
        rw
            (
              take-step i b c s (omega arith),
              finditer-word chars i none c (take (b - (i + 1)) s) word,
              finditer-word chars i none c s word,
            )
            e,
      )

  Fresh-space :
      (i c : ℕ) (s : Text)
      → is_word c ≡ false
      → is_space c ≡ true
      → Fresh (i + 1) s
      → Fresh i (c ∷ s)
  unfolding Fresh
  Fresh-space i c s other space ih k a b h =
      let (l, e) = ih k a b (rw (finditer-space chars i none c s other space) at h) in
      (
        omega arith,
        rw
            (
              take-step i b c s (omega arith),
              finditer-space chars i none c (take (b - (i + 1)) s) other space,
              finditer-space chars i none c s other space,
            )
            e,
      )

  nothing_left : (i b : ℕ) (s : Text) → b ≡ i → ◌≡◌ {A = Text} (take (b - i) s) []
  nothing_left i b s e = rw zero_gap
    where
      zero_gap : b - i ≡ 0
      zero_gap = omega arith

  empty_tail : (i : ℕ) (t : Text) → ◌≡◌ {A = Text} t [] → finditer chars i none t ≡ []
  unfolding finditer
  empty_tail i t e = rw e

  Fresh-sign :
      (i c : ℕ) (s : Text)
      → is_word c ≡ false
      → is_space c ≡ false
      → Fresh (i + 1) s
      → Fresh i (c ∷ s)
  unfolding Fresh
  Fresh-sign i c s other sign ih zero a b h =
      let e : b ≡ i + 1 = span_end (rw (finditer-sign chars i none c s other sign) at h) in
      (
        omega arith,
        rw
            (
              take-step i b c s (omega arith),
              finditer-sign chars i none c (take (b - (i + 1)) s) other sign,
              finditer-sign chars i none c s other sign,
            )
            (ap (λ (l : List Span). (i, i + 1) ∷ l)
              (empty_tail (i + 1) (take (b - (i + 1)) s) (nothing_left (i + 1) b s e))),
      )
  Fresh-sign i c s other sign ih (suc k) a b h =
      let (l, e) = ih k a b (rw (finditer-sign chars i none c s other sign) at h) in
      (
        omega arith,
        rw
            (
              take-step i b c s (omega arith),
              finditer-sign chars i none c (take (b - (i + 1)) s) other sign,
              finditer-sign chars i none c s other sign,
            )
            (ap (λ (l : List Span). (i, i + 1) ∷ l) e),
      )

  word_word : (i w c : ℕ) (s : Text) → is_word c ≡ true → InWord (i + 1) w s → InWord i w (c ∷ s)
  unfolding InWord
  word_word i w c s word ih k a b h =
      let (l, e) = ih k a b (rw (finditer-word chars i (some w) c s word) at h) in
      (
        omega arith,
        rw
            (
              take-step i b c s (omega arith),
              finditer-word chars i (some w) c (take (b - (i + 1)) s) word,
              finditer-word chars i (some w) c s word,
            )
            e,
      )

  ends_here :
      (i w : ℕ) (b : ℕ) (s : Text) (rest : List Span)
      → b ≡ i
      → finditer chars i (some w) (take (b - i) s) ≡ take 1 (close_word (some w) i rest)
  unfolding finditer
  ends_here i w b s rest e = rw (nothing_left i b s e)

  word_space :
      (i w c : ℕ) (s : Text)
      → is_word c ≡ false
      → is_space c ≡ true
      → Fresh (i + 1) s
      → InWord i w (c ∷ s)
  unfolding Fresh InWord
  word_space i w c s other space ih zero a b h =
      let e : b ≡ i = span_end (rw (finditer-space chars i (some w) c s other space) at h) in
      (
        omega arith,
        rw (finditer-space chars i (some w) c s other space)
            (ends_here i w b (c ∷ s) (finditer chars (i + 1) none s) e),
      )
  word_space i w c s other space ih (suc k) a b h =
      let (l, e) = ih k a b (rw (finditer-space chars i (some w) c s other space) at h) in
      (
        omega arith,
        rw
            (
              take-step i b c s (omega arith),
              finditer-space chars i (some w) c (take (b - (i + 1)) s) other space,
              finditer-space chars i (some w) c s other space,
            )
            (ap (λ (l : List Span). (w, i) ∷ l) e),
      )

  word_sign :
      (i w c : ℕ) (s : Text)
      → is_word c ≡ false
      → is_space c ≡ false
      → Fresh i (c ∷ s)
      → InWord i w (c ∷ s)
  unfolding Fresh InWord
  word_sign i w c s other sign ih zero a b h =
      let e : b ≡ i = span_end (rw (finditer-sign chars i (some w) c s other sign) at h) in
      (
        omega arith,
        rw (finditer-sign chars i (some w) c s other sign)
            (ends_here i w b (c ∷ s) ((i, i + 1) ∷ finditer chars (i + 1) none s) e),
      )
  word_sign i w c s other sign ih (suc k) a b h =
      let (l, e) = ih k a b (
        rw (finditer-sign chars i none c s other sign)
          (rw (finditer-sign chars i (some w) c s other sign) at h)) in
      (
        omega arith,
        rw
            (
              take-step i b c s l,
              finditer-sign chars i (some w) c (take (b - (i + 1)) s) other sign,
              finditer-sign chars i (some w) c s other sign,
            )
            (ap (λ (m : List Span). (w, i) ∷ m)
              (rw
                (
                  take-step i b c s l,
                  finditer-sign chars i none c (take (b - (i + 1)) s) other sign,
                  finditer-sign chars i none c s other sign,
                )
                at e)),
      )

  Fresh-nil : (i : ℕ) → Fresh i []
  unfolding Fresh finditer
  Fresh-nil i k a b h = cc

  word_nil : (i w : ℕ) → InWord i w []
  unfolding InWord finditer
  word_nil i w zero a b h = let e : b ≡ i = span_end h in (omega arith, ends_here i w b [] [] e)
  word_nil i w (suc k) a b h = cc

  mutual
    ends-Fresh : (i : ℕ) (s : Text) → Fresh i s
    ends-Fresh i [] = Fresh-nil i
    ends-Fresh i (c ∷ s) = elim (Bool-cases (is_word c)) [
      | inl word ↦ Fresh-word i c s word (ends-InWord (i + 1) i s)
      | inr other ↦ elim (Bool-cases (is_space c)) [
        | inl space ↦ Fresh-space i c s other space (ends-Fresh (i + 1) s)
        | inr sign ↦ Fresh-sign i c s other sign (ends-Fresh (i + 1) s)
      ]
    ]

    ends-InWord : (i w : ℕ) (s : Text) → InWord i w s
    ends-InWord i w [] = word_nil i w
    ends-InWord i w (c ∷ s) = elim (Bool-cases (is_word c)) [
      | inl word ↦ word_word i w c s word (ends-InWord (i + 1) w s)
      | inr other ↦ elim (Bool-cases (is_space c)) [
        | inl space ↦ word_space i w c s other space (ends-Fresh (i + 1) s)
        | inr sign ↦
            word_sign i w c s other sign (Fresh-sign i c s other sign (ends-Fresh (i + 1) s))
      ]
    ]

  -- Where a token ends, the tokens of the text up to there are those up to it.
  pub finditer-take :
      (i : ℕ) (s : Text) (k a b : ℕ)
      → nth (finditer chars i none s) k ≡ some (a, b)
      → finditer chars i none (take (b - i) s) ≡ take (suc k) (finditer chars i none s)
  unfolding Fresh
  finditer-take i s k a b h = (ends-Fresh i s k a b h).1
