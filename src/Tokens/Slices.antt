-- ===== src/Tokens/Slices.antt =====
-- Cutting a text at the edges of its tokens keeps exactly the tokens between the cuts.
use plug_and_play_local_rag.Base.{
  ℕ, zero, suc, ◌+◌, ◌-◌, ◌≤◌, ◌≡◌, refl, ap, ◌∙◌, inl, inr, List, [], ◌∷◌, true, false, Option,
  none, some, arith, Bool-cases, drop,
}
use plug_and_play_local_rag.Tokens.{Text, CharClasses, Span, starts_at, close_word, finditer}

-- The span of that number.
abbrev pub nth : List Span → ℕ → Option Span
nth [] k = none
nth (x ∷ l) zero = some x
nth (x ∷ l) (suc k) = nth l k

module _ (chars : CharClasses) where
  open chars use {is_word, is_space}

  first_start :
      (i w : ℕ) (s : Text) (a b : ℕ) → nth (finditer chars i (some w) s) 0 ≡ some (a, b) → a ≡ w
  unfolding finditer
  first_start i w [] a b h = ground arith
  first_start i w (c ∷ s) a b h = ground (arith, first_start (i + 1) w s a b)

  -- From `a` on, `s` at `i` has the tokens `rest`.
  abbrev pub Leaves : ℕ → ℕ → Text → List Span → Type 0
  Leaves i a s rest = (i ≤ a) × (finditer chars a none (drop (a - i) s) ≡ rest)

  shift :
      (i a c : ℕ) (s : Text) (rest : List Span) → Leaves (i + 1) a s rest → Leaves i a (c ∷ s) rest
  shift i a c s rest h = (omega arith, ap (λ (t : Text). finditer chars a none t) same ∙ h.1)
    where
      peel : (n m : ℕ) → n ≡ suc m → ◌≡◌ {A = Text} (drop n (c ∷ s)) (drop m s)
      peel n m e = rw e

      same : ◌≡◌ {A = Text} (drop (a - i) (c ∷ s)) (drop (a - (i + 1)) s)
      same = peel (a - i) (a - (i + 1)) (omega arith)

  here : (i a : ℕ) (s : Text) → a ≡ i → Leaves i a s (finditer chars i none s)
  here i a s e = (omega arith, rw (e, zero_gap) (refl))
    where
      zero_gap : i - i ≡ 0
      zero_gap = omega arith

  span_start : {i j a b : ℕ} → ◌≡◌ {A = Option Span} (some (i, j)) (some (a, b)) → a ≡ i
  span_start h = ground arith

  Fresh : ℕ → Text → Type 0
  Fresh i s =
      (k a b : ℕ)
      → nth (finditer chars i none s) k ≡ some (a, b)
      → Leaves i a s (drop k (finditer chars i none s))

  InWord : ℕ → ℕ → Text → Type 0
  InWord i w s =
      (k a b : ℕ)
      → nth (finditer chars i (some w) s) (suc k) ≡ some (a, b)
      → Leaves i a s (drop (suc k) (finditer chars i (some w) s))

  pub finditer-word :
      (i : ℕ) (o : Option ℕ) (c : ℕ) (s : Text)
      → is_word c ≡ true
      → finditer chars i o (c ∷ s) ≡ finditer chars (i + 1) (some (starts_at o i)) s
  unfolding finditer
  finditer-word i o c s h = ground arith

  pub finditer-space :
      (i : ℕ) (o : Option ℕ) (c : ℕ) (s : Text)
      → is_word c ≡ false
      → is_space c ≡ true
      → finditer chars i o (c ∷ s) ≡ close_word o i (finditer chars (i + 1) none s)
  unfolding finditer
  finditer-space i o c s h k = ground arith

  pub finditer-sign :
      (i : ℕ) (o : Option ℕ) (c : ℕ) (s : Text)
      → is_word c ≡ false
      → is_space c ≡ false
      → finditer chars i o (c ∷ s) ≡ close_word o i ((i, i + 1) ∷ finditer chars (i + 1) none s)
  unfolding finditer
  finditer-sign i o c s h k = ground arith

  Fresh-word : (i c : ℕ) (s : Text) → is_word c ≡ true → InWord (i + 1) i s → Fresh i (c ∷ s)
  unfolding Fresh InWord
  Fresh-word i c s word ih zero a b h =
      here i a (c ∷ s) (first_start (i + 1) i s a b (rw (finditer-word i none c s word) at h))
  Fresh-word i c s word ih (suc k) a b h =
      rw (finditer-word i none c s word)
        (shift i a c s _ (ih k a b (rw (finditer-word i none c s word) at h)))

  Fresh-space :
      (i c : ℕ) (s : Text)
      → is_word c ≡ false
      → is_space c ≡ true
      → Fresh (i + 1) s
      → Fresh i (c ∷ s)
  unfolding Fresh
  Fresh-space i c s other space ih k a b h =
      rw (finditer-space i none c s other space)
        (shift i a c s _ (ih k a b (rw (finditer-space i none c s other space) at h)))

  Fresh-sign :
      (i c : ℕ) (s : Text)
      → is_word c ≡ false
      → is_space c ≡ false
      → Fresh (i + 1) s
      → Fresh i (c ∷ s)
  unfolding Fresh
  Fresh-sign i c s other sign ih zero a b h =
      here i a (c ∷ s) (span_start (rw (finditer-sign i none c s other sign) at h))
  Fresh-sign i c s other sign ih (suc k) a b h =
      rw (finditer-sign i none c s other sign)
        (shift i a c s _ (ih k a b (rw (finditer-sign i none c s other sign) at h)))

  word_word : (i w c : ℕ) (s : Text) → is_word c ≡ true → InWord (i + 1) w s → InWord i w (c ∷ s)
  unfolding InWord
  word_word i w c s word ih k a b h =
      rw (finditer-word i (some w) c s word)
        (shift i a c s _ (ih k a b (rw (finditer-word i (some w) c s word) at h)))

  word_space :
      (i w c : ℕ) (s : Text)
      → is_word c ≡ false
      → is_space c ≡ true
      → Fresh (i + 1) s
      → InWord i w (c ∷ s)
  unfolding Fresh InWord
  word_space i w c s other space ih k a b h =
      rw (finditer-space i (some w) c s other space)
        (shift i a c s _ (ih k a b (rw (finditer-space i (some w) c s other space) at h)))

  word_sign :
      (i w c : ℕ) (s : Text)
      → is_word c ≡ false
      → is_space c ≡ false
      → Fresh (i + 1) s
      → InWord i w (c ∷ s)
  unfolding Fresh InWord
  word_sign i w c s other sign ih zero a b h = rw (finditer-sign i (some w) c s other sign) (
      rw (finditer-sign i none c s other sign) at
        (here i a (c ∷ s) (span_start (rw (finditer-sign i (some w) c s other sign) at h))))
  word_sign i w c s other sign ih (suc k) a b h =
      rw (finditer-sign i (some w) c s other sign)
        (shift i a c s _ (ih k a b (rw (finditer-sign i (some w) c s other sign) at h)))

  Fresh-nil : (i : ℕ) → Fresh i []
  unfolding Fresh finditer
  Fresh-nil i k a b h = cc

  word_nil : (i w : ℕ) → InWord i w []
  unfolding InWord finditer
  word_nil i w k a b h = cc

  mutual
    starts-Fresh : (i : ℕ) (s : Text) → Fresh i s
    starts-Fresh i [] = Fresh-nil i
    starts-Fresh i (c ∷ s) = elim (Bool-cases (is_word c)) [
      | inl word ↦ Fresh-word i c s word (starts-InWord (i + 1) i s)
      | inr other ↦ elim (Bool-cases (is_space c)) [
        | inl space ↦ Fresh-space i c s other space (starts-Fresh (i + 1) s)
        | inr sign ↦ Fresh-sign i c s other sign (starts-Fresh (i + 1) s)
      ]
    ]

    starts-InWord : (i w : ℕ) (s : Text) → InWord i w s
    starts-InWord i w [] = word_nil i w
    starts-InWord i w (c ∷ s) = elim (Bool-cases (is_word c)) [
      | inl word ↦ word_word i w c s word (starts-InWord (i + 1) w s)
      | inr other ↦ elim (Bool-cases (is_space c)) [
        | inl space ↦ word_space i w c s other space (starts-Fresh (i + 1) s)
        | inr sign ↦ word_sign i w c s other sign (starts-Fresh (i + 1) s)
      ]
    ]

  sub_nothing : (n : ℕ) → n - 0 ≡ n
  sub_nothing n = omega arith

  -- Where a token starts, the tokens of the text from there on are those that are left.
  pub finditer-drop :
      (s : Text) (k a b : ℕ)
      → nth (finditer chars 0 none s) k ≡ some (a, b)
      → finditer chars a none (drop a s) ≡ drop k (finditer chars 0 none s)
  unfolding Fresh
  finditer-drop s k a b h = rw (sub_nothing a) at (starts-Fresh 0 s k a b h).1
