-- ===== src/Examples/Prompting.antt =====
-- Runs of the prompt budget of apps/api/app/services/chats.py, on texts of ASCII characters.
use plug_and_play_local_rag.Base.{◌≡◌, refl, List, [], ◌∷◌, Option, none, ok}
use plug_and_play_local_rag.Tokens.{Text, finditer, count_tokens, join}
use plug_and_play_local_rag.Examples.Chunks.{ascii}
use plug_and_play_local_rag.Prompts.{
  HistoryPair, ChatSourceSnapshot, history_block, select_blocks, select_history, budget_prompt,
}
use plug_and_play_local_rag.Prompts.Budgets.{FitsModel, budget_prompt-FitsModel}

-- "w"
abbrev question : Text
question = 119 ∷ []

abbrev pair : HistoryPair
pair = record { question = 97 ∷ []; answer = 98 ∷ [] }

abbrev long_pair : HistoryPair
long_pair = record { question = 97 ∷ []; answer = 98 ∷ 32 ∷ 98 ∷ 32 ∷ 98 ∷ [] }

abbrev source : ChatSourceSnapshot
source = record {
  rank = 7;
  label = 83 ∷ 55 ∷ [];
  original_filename = 97 ∷ [];
  display_name = 98 ∷ [];
  logical_path = 47 ∷ 97 ∷ [];
  page_start = 12;
  page_end = 13;
  section = none;
  text = 120 ∷ [];
}

-- Eight tokens leave room for the last pair, of six, but not for the pair before it.
history_selected : select_history ascii (long_pair ∷ pair ∷ []) 8 ≡ history_block pair
unfolding select_history select_blocks history_block count_tokens finditer join
history_selected = refl

budget_prompt-FitsModel_example :
    (out : List ChatSourceSnapshot × Option Text) × (budget_prompt ascii question
        (long_pair ∷ pair ∷ [])
        (source ∷ [])
      ≡ ok out)
    × FitsModel ascii out
budget_prompt-FitsModel_example =
    budget_prompt-FitsModel ascii question (long_pair ∷ pair ∷ []) (source ∷ [])
