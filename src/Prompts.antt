-- ===== src/Prompts.antt =====
-- apps/api/app/services/chats.py: which history and which sources go into the prompt of a turn. Of a
-- source only the fields that the prompt shows are modelled; the others are passed on.
pub mod Budgets
use plug_and_play_local_rag.Base.{
  ℕ, suc, ◌+◌, ◌-◌, min, String, List, [], ◌∷◌, ◌++◌, map, Bool, not, Option, none, some, ltb, leb,
  ◌==◌, if◌then◌else◌, length, Result, ok, ◌>>=◌, ◌>>◌, raise_if,
}
use Prim.Native.Char.{code}
use Prim.Native.String.{[] as empty, ◌∷◌ as ◌∷ₛ◌}
use plug_and_play_local_rag.Tokens.{Text, CharClasses, count_tokens, join, paragraph_break}
use plug_and_play_local_rag.Profiles.{decimal}

pub record HistoryPair : Type 0 where
  pub question : Text
  pub answer : Text

pub record ChatSourceSnapshot : Type 0 where
  pub rank : ℕ
  pub label : Text
  pub original_filename : Text
  pub display_name : Text
  pub logical_path : Text
  pub page_start : ℕ
  pub page_end : ℕ
  pub section : Option Text
  pub text : Text

pub data PromptError : Type 0 where
  prompt_too_long history_too_long context_too_long : PromptError

abbrev pub max_history_tokens : ℕ
max_history_tokens = 1536

abbrev pub max_combined_tokens : ℕ
max_combined_tokens = 6144

abbrev pub model_context_tokens : ℕ
model_context_tokens = 16384

abbrev pub output_tokens : ℕ
output_tokens = 3072

abbrev pub prompt_formatting_reserve_tokens : ℕ
prompt_formatting_reserve_tokens = 256

-- The code points of a literal.
abbrev pub literal : String → Text
literal empty = []
literal (c ∷ₛ s) = code c ∷ literal s

-- str(n)
abbrev pub number : ℕ → Text
number n = literal (decimal (suc n) n)

abbrev pub reversed {ℓ} : {A : Type ℓ} → List A → List A
reversed [] = []
reversed (x ∷ l) = reversed l ++ x ∷ []

abbrev pub or_text : Text → Text → Text
or_text [] other = other
or_text (c ∷ t) other = c ∷ t

abbrev pub or_section : Option Text → Text
or_section none = literal "Not specified"
or_section (some t) = or_text t (literal "Not specified")

unfoldable pub history_block : HistoryPair → Text
history_block pair = literal "User: " ++ (pair.question ++ (literal "\nAssistant: " ++ pair.answer))

abbrev pub page_of : ChatSourceSnapshot → Text
page_of source =
    if source.page_start == source.page_end
    then number source.page_start
    else number source.page_start ++ (literal "-" ++ number source.page_end)

unfoldable pub source_block : ChatSourceSnapshot → Text
source_block source =
    literal "["
    ++ (source.label
        ++ (literal "]\nFilename: "
            ++ (source.original_filename
                ++ (literal "\nCurrent display name: "
                    ++ (source.display_name
                        ++ (literal "\nLogical path: "
                            ++ (source.logical_path
                                ++ (literal "\nPage: "
                                    ++ (page_of source
                                        ++ (literal "\nSection: "
                                            ++ (or_section source.section
                                                ++ (literal "\nContent:\n"
                                                    ++ source.text))))))))))))

unfoldable pub render_prompt : Text → Text → Text → Text
render_prompt question history sources =
    literal
      "Answer the current question using only the labeled source blocks.\nConversation history is reference context only and is not factual evidence.\nEvery factual claim must cite [S1], [S2], etc.\nIf sources are insufficient, reply exactly: INSUFFICIENT_CONTEXT\n\nConversation history:\n"
    ++ (or_text history (literal "No completed conversation history.")
        ++ (literal "\n\nCurrent question:\n"
            ++ (question ++ (literal "\n\nSources:\n" ++ sources))))

-- The source with the rank and the label that follow those selected.
unfoldable pub relabeled : List ChatSourceSnapshot → ChatSourceSnapshot → ChatSourceSnapshot
relabeled selected source = record source {
  rank = length selected + 1;
  label = literal "S" ++ number (length selected + 1);
}

abbrev pub blocks_of : List ChatSourceSnapshot → Text
unfolding source_block
blocks_of selected = join paragraph_break (map source_block selected)

module _ (chars : CharClasses) where
  -- The loop of `_select_history` over the reversed pairs.
  unfoldable pub select_blocks : ℕ → List Text → List HistoryPair → List Text
  select_blocks budget selected [] = selected
  select_blocks budget selected (pair ∷ rest) =
      let taken = select_blocks budget (selected ++ history_block pair ∷ []) rest in
      let left = select_blocks budget selected rest in
      if leb (count_tokens chars (join paragraph_break (history_block pair ∷ selected))) budget
      then taken
      else left

  unfoldable pub select_history : List HistoryPair → ℕ → Text
  unfolding select_blocks
  select_history history budget =
      join paragraph_break (reversed (select_blocks budget [] (reversed history)))

  abbrev pub exceeds_context : Text → Bool
  exceeds_context prompt =
      ltb model_context_tokens
        (count_tokens chars prompt + output_tokens + prompt_formatting_reserve_tokens)

  -- The loop over the sources, which ends at the first that does not fit.
  unfoldable pub select_sources :
      Text → Text → ℕ → List ChatSourceSnapshot → List ChatSourceSnapshot → List ChatSourceSnapshot
  select_sources question history budget selected [] = selected
  select_sources question history budget selected (source ∷ rest) =
      let candidate = selected ++ relabeled selected source ∷ [] in
      let further = select_sources question history budget candidate rest in
      if ltb budget (count_tokens chars (blocks_of candidate))
      then selected
      else (if exceeds_context (render_prompt question history (blocks_of candidate))
          then selected
          else further)

  abbrev pub combined_budget : Text → ℕ
  combined_budget question = min max_combined_tokens (
      model_context_tokens
      - output_tokens
      - prompt_formatting_reserve_tokens
      - count_tokens chars (render_prompt question [] []))

  -- count_tokens(history_text) if history_text else 0
  abbrev pub tokens_of : Text → ℕ
  tokens_of [] = 0
  tokens_of (c ∷ t) = count_tokens chars (c ∷ t)

  -- What follows the selection.
  unfoldable pub finish_prompt :
      Text
      → Text
      → List ChatSourceSnapshot
      → Result PromptError (List ChatSourceSnapshot × Option Text)
  finish_prompt question history [] = ok ([], none)
  finish_prompt question history (s ∷ selected) = do
    let prompt : Text = render_prompt question history (blocks_of (s ∷ selected))
    raise_if (exceeds_context prompt) prompt_too_long
    raise_if (ltb max_history_tokens (tokens_of history)) history_too_long
    raise_if
        (ltb max_combined_tokens
          (tokens_of history + count_tokens chars (blocks_of (s ∷ selected))))
        context_too_long
    ok (s ∷ selected, some prompt)

  unfoldable pub budget_prompt :
      Text
      → List HistoryPair
      → List ChatSourceSnapshot
      → Result PromptError (List ChatSourceSnapshot × Option Text)
  unfolding select_history select_sources finish_prompt
  budget_prompt question history sources =
      let history_text =
        select_history history (min max_history_tokens (combined_budget question)) in
      finish_prompt question history_text (
        select_sources question history_text (combined_budget question - tokens_of history_text) []
          sources)
