-- ===== src/Tokens.antt =====
-- Token counting of apps/api/app/services/chunking.py. A text is the list of its code points. The
-- Unicode tables of Python's `re` and `str` are a parameter.
pub mod Counting
pub mod Slices
pub mod Ends
use plug_and_play_local_rag.Base.{
  ℕ, ◌+◌, ◌≡◌, List, [], ◌∷◌, ◌++◌, Bool, true, false, not, ◌&&◌, Option, none, some, if◌then◌else◌,
  length, is_empty,
}

abbrev pub Text : Type 0
Text = List ℕ

-- `\w`, and `\s` with `str.isspace`, which `str.strip` uses: no character is in both classes, and a
-- line feed is a space.
pub record CharClasses : Type 0 where
  pub is_word : ℕ → Bool
  pub is_space : ℕ → Bool
  pub disjoint : (c : ℕ) → is_word c ≡ true → is_space c ≡ false
  pub newline : is_space 10 ≡ true

-- The start and the end of a match.
abbrev pub Span : Type 0
Span = ℕ × ℕ

abbrev pub starts_at : Option ℕ → ℕ → ℕ
starts_at none i = i
starts_at (some a) i = a

-- The word that is open at `i` ends there.
abbrev pub close_word : Option ℕ → ℕ → List Span → List Span
close_word none i rest = rest
close_word (some a) i rest = (a, i) ∷ rest

module _ (chars : CharClasses) where
  open chars use {is_word, is_space}

  -- TOKEN_PATTERN.finditer, `\w+|[^\w\s]`: the spans of the maximal runs of word characters and of the
  -- other characters that are not spaces. `i` is the position, and a word may be open.
  unfoldable pub finditer : ℕ → Option ℕ → Text → List Span
  finditer i open_word [] = close_word open_word i []
  finditer i open_word (c ∷ s) = elim (is_word c) [
    | true ↦ finditer (i + 1) (some (starts_at open_word i)) s
    | false ↦ close_word open_word i (elim (is_space c) [
      | true ↦ finditer (i + 1) none s
      | false ↦ (i, i + 1) ∷ finditer (i + 1) none s
    ])
  ]

  unfoldable pub count_tokens : Text → ℕ
  unfolding finditer
  count_tokens s = length (finditer 0 none s)

  unfoldable pub lstrip : Text → Text
  lstrip [] = []
  lstrip (c ∷ s) = let rest = lstrip s in if is_space c then rest else c ∷ s

  unfoldable pub rstrip : Text → Text
  rstrip [] = []
  rstrip (c ∷ s) = let rest = rstrip s in if is_space c && is_empty rest then [] else c ∷ rest

  -- s.strip()
  unfoldable pub strip : Text → Text
  unfolding lstrip rstrip
  strip s = rstrip (lstrip s)

-- sep.join(parts)
unfoldable pub join : Text → List Text → Text
join sep [] = []
join sep (t ∷ []) = t
join sep (t ∷ u ∷ rest) = t ++ (sep ++ join sep (u ∷ rest))

-- "\n\n"
abbrev pub paragraph_break : Text
paragraph_break = 10 ∷ 10 ∷ []
