-- ===== src/Prompts/Budgets.antt =====
-- chats.py, `_budget_prompt`: the prompt fits the model, and none of its last checks ever fails.
use plug_and_play_local_rag.Base.{
  ℕ, ◌+◌, ◌-◌, ◌≤◌, min, ◌≡◌, refl, ◌⊎◌, inl, inr, List, [], ◌∷◌, ◌++◌, false, Option, none, some,
  arith, ltb, leb, leb→le, Bool-cases, ok,
}
use plug_and_play_local_rag.Tokens.{Text, CharClasses, count_tokens, join, paragraph_break}
use plug_and_play_local_rag.Tokens.Counting.{total_tokens, count_tokens-join}
use plug_and_play_local_rag.Prompts.{
  HistoryPair, ChatSourceSnapshot, history_block, render_prompt, relabeled, blocks_of, reversed,
  select_blocks, select_history, exceeds_context, select_sources, combined_budget, tokens_of,
  finish_prompt, budget_prompt, max_history_tokens, max_combined_tokens, model_context_tokens,
  output_tokens, prompt_formatting_reserve_tokens,
}

module _ (chars : CharClasses) where
  total-append :
      (a b : List Text) → total_tokens chars (a ++ b) ≡ total_tokens chars a + total_tokens chars b
  unfolding total_tokens
  total-append [] b = omega arith
  total-append (t ∷ a) b = omega (arith, total-append a b)

  total-reversed : (a : List Text) → total_tokens chars (reversed a) ≡ total_tokens chars a
  unfolding total_tokens
  total-reversed [] = refl
  total-reversed (t ∷ a) = omega (arith, total-append (reversed a) (t ∷ []), total-reversed a)

  select_blocks-fit :
      (budget : ℕ) (selected : List Text) (pairs : List HistoryPair)
      → total_tokens chars selected ≤ budget
      → total_tokens chars (select_blocks chars budget selected pairs) ≤ budget
  unfolding select_blocks total_tokens
  select_blocks-fit budget selected [] l = l
  select_blocks-fit budget selected (pair ∷ rest) l =
      elim (Bool-cases
        (leb (count_tokens chars (join paragraph_break (history_block pair ∷ selected))) budget)) [
          | inl fits ↦ rw fits (
              select_blocks-fit budget (selected ++ history_block pair ∷ []) rest (
                omega (
                  arith,
                  leb→le _ _ fits,
                  count_tokens-join chars (history_block pair ∷ selected),
                  total-append selected (history_block pair ∷ []),
                )))
          | inr long ↦ rw long (select_blocks-fit budget selected rest l)
        ]

  -- The history that is selected has at most as many tokens as its budget.
  pub select_history-bounded :
      (history : List HistoryPair) (budget : ℕ)
      → count_tokens chars (select_history chars history budget) ≤ budget
  unfolding select_history
  select_history-bounded history budget =
      let blocks = select_blocks chars budget [] (reversed history) in
      omega (
        arith,
        count_tokens-join chars (reversed blocks),
        total-reversed blocks,
        select_blocks-fit budget [] (reversed history) (unfold total_tokens in omega arith),
      )

  -- Nothing is selected, or what is selected fits the budget and the context.
  record IsWithin (question history : Text) (budget : ℕ) (selected : List ChatSourceSnapshot)
      : Type 0 where
    short : count_tokens chars (blocks_of selected) ≤ budget
    fits : exceeds_context chars (render_prompt question history (blocks_of selected)) ≡ false

  select_sources-IsWithin :
      (question history : Text) (budget : ℕ) (selected sources : List ChatSourceSnapshot)
      → (selected ≡ []) ⊎ IsWithin question history budget selected
      → (select_sources chars question history budget selected sources ≡ [])
        ⊎ IsWithin question history budget
            (select_sources chars question history budget selected sources)
  unfolding select_sources
  select_sources-IsWithin question history budget selected [] v = v
  select_sources-IsWithin question history budget selected (source ∷ rest) v =
      let candidate = selected ++ relabeled selected source ∷ [] in
      elim (Bool-cases (ltb budget (count_tokens chars (blocks_of candidate)))) [
        | inl long ↦ rw long v
        | inr short ↦
            elim (Bool-cases
              (exceeds_context chars (render_prompt question history (blocks_of candidate)))) [
                | inl large ↦ rw (short, large) v
                | inr fits ↦
                    rw (short, fits)
                      (select_sources-IsWithin question history budget candidate rest
                        (inr (record { short = ground arith; fits = fits })))
              ]
      ]

  -- The prompt leaves room for the output and the reserve in the model's context, and its history and
  -- source blocks keep their limit.
  abbrev pub FitsModel : List ChatSourceSnapshot × Option Text → Type 0
  FitsModel (selected, none) = selected ≡ []
  FitsModel (selected, some prompt) =
      (count_tokens chars prompt + output_tokens + prompt_formatting_reserve_tokens
        ≤ model_context_tokens)
      × (count_tokens chars (blocks_of selected) ≤ max_combined_tokens)

  tokens_of-le : (t : Text) → tokens_of chars t ≤ count_tokens chars t
  tokens_of-le [] = omega arith
  tokens_of-le (c ∷ t) = omega arith

  not_over : (a b : ℕ) → a ≤ b → ltb b a ≡ false
  not_over a b l = ground arith

  finish_prompt-FitsModel :
      (question history : Text) (budget : ℕ) (selected : List ChatSourceSnapshot)
      → tokens_of chars history ≤ max_history_tokens
      → tokens_of chars history + budget ≤ max_combined_tokens
      → (selected ≡ []) ⊎ IsWithin question history budget selected
      → (out : List ChatSourceSnapshot × Option Text) × (finish_prompt chars question history
            selected
          ≡ ok out)
        × FitsModel out
  unfolding finish_prompt
  finish_prompt-FitsModel question history budget [] l m v = (([], none), refl, refl)
  finish_prompt-FitsModel question history budget (s ∷ selected) l m (inl e) = absurd (cc)
  finish_prompt-FitsModel question history budget (s ∷ selected) l m (inr w) =
      let blocks = blocks_of (s ∷ selected) in
      (
        (s ∷ selected, some (render_prompt question history blocks)),
        rw
            (
              w.fits,
              not_over (tokens_of chars history) max_history_tokens l,
              not_over (tokens_of chars history + count_tokens chars blocks) max_combined_tokens
                  (omega (arith, w.short)),
            )
            refl,
        ((let fits = w.fits in ground arith), omega (arith, w.short)),
      )

  -- Whatever the question, the history and the sources, `_budget_prompt` returns without an error: no
  -- prompt and no source, or a prompt that leaves the model room for its output.
  pub budget_prompt-FitsModel :
      (question : Text) (history : List HistoryPair) (sources : List ChatSourceSnapshot)
      → (out : List ChatSourceSnapshot × Option Text) × (budget_prompt chars question history
            sources
          ≡ ok out)
        × FitsModel out
  unfolding budget_prompt
  budget_prompt-FitsModel question history sources =
      let combined = combined_budget chars question in
      let text = select_history chars history (min max_history_tokens combined) in
      let short = select_history-bounded history (min max_history_tokens combined) in
      let counted = tokens_of-le text in
      finish_prompt-FitsModel question text (combined - tokens_of chars text)
        (select_sources chars question text (combined - tokens_of chars text) [] sources)
        (omega arith) (omega arith)
        (select_sources-IsWithin question text (combined - tokens_of chars text) [] sources
          (inl refl))
