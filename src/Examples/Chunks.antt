-- ===== src/Examples/Chunks.antt =====
-- Runs of the chunker of apps/api/app/services/chunking.py, on texts of ASCII characters.
use plug_and_play_local_rag.Base.{
  ℕ, ◌≤◌, ◌≡◌, refl, inl, inr, List, [], ◌∷◌, true, false, ◌||◌, none, some, arith, leb, ◌==◌, All,
}
use plug_and_play_local_rag.Tokens.{
  Text, CharClasses, finditer, count_tokens, lstrip, rstrip, strip, join, paragraph_break,
}
use plug_and_play_local_rag.Tokens.Counting.{total_tokens, count_tokens-join}
use plug_and_play_local_rag.Highlights.{normalize_highlight_text}
use plug_and_play_local_rag.Units.{
  ParsedPage, find_from, split_sentences, split_paragraphs, sentence_parts, normalized, place_parts,
  part_units, paragraph_units, units,
}
use plug_and_play_local_rag.Units.Places.{Placed, units-Placed}
use plug_and_play_local_rag.Chunking.{Limits, ChunkUnit, split_groups, split_oversized, pack}
use plug_and_play_local_rag.Chunking.Splitting.{split_oversized-tokens}
use plug_and_play_local_rag.Chunking.Packing.{pack-bounded}
use plug_and_play_local_rag.Chunking.Coverage.{Covered, pack-Covered}

pub apart : (c : ℕ) → leb 48 c ≡ true → (c == 32 || c == 10) ≡ false
apart c h = ground arith

abbrev pub ascii : CharClasses
ascii = record {
  is_word = λ c. leb 48 c;
  is_space = λ c. c == 32 || c == 10;
  disjoint = apart;
  newline = refl;
}

-- "a b."
abbrev words : Text
words = 97 ∷ 32 ∷ 98 ∷ 46 ∷ []

-- "c"
abbrev letter : Text
letter = 99 ∷ []

abbrev unit : Text → ChunkUnit ℕ
unit text = record { text = text; section = none; regions = []; start = none; end_at = none }

abbrev two_units : List (ChunkUnit ℕ)
two_units = unit words ∷ unit letter ∷ []

abbrev small : Limits
small = record { target_tokens = 3; max_tokens = 4; overlap_tokens = 1 }

abbrev tiny : Limits
tiny = record { target_tokens = 2; max_tokens = 2; overlap_tokens = 1 }

-- Three tokens, of which the last is the full stop.
words_tokens : finditer ascii 0 none words ≡ (0, 1) ∷ (2, 3) ∷ (3, 4) ∷ []
unfolding finditer
words_tokens = refl

-- Split at two tokens, the text is "a b" and ".".
words_split : split_oversized ascii tiny words ≡ (97 ∷ 32 ∷ 98 ∷ []) ∷ (46 ∷ []) ∷ []
unfolding split_oversized split_groups finditer strip lstrip rstrip
words_split = refl

count_tokens-join_example :
    count_tokens ascii (join paragraph_break (words ∷ letter ∷ []))
    ≡ total_tokens ascii (words ∷ letter ∷ [])
count_tokens-join_example = count_tokens-join ascii (words ∷ letter ∷ [])

split_oversized-tokens_example :
    All (λ part. count_tokens ascii part ≤ 2) (split_oversized ascii tiny words)
    × (total_tokens ascii (split_oversized ascii tiny words) ≡ count_tokens ascii words)
split_oversized-tokens_example = split_oversized-tokens ascii tiny words (omega arith)

pack-bounded_example :
    All (λ c. count_tokens ascii c.text ≤ 4) (pack ascii (λ t. t) small two_units)
unfolding count_tokens finditer
pack-bounded_example =
    pack-bounded ascii (λ t. t) small two_units (omega arith) (omega arith, (omega arith, tt))

pack-Covered_example :
    Covered ascii (λ t. t) small (unit letter) (pack ascii (λ t. t) small two_units)
pack-Covered_example = pack-Covered ascii (λ t. t) small two_units (unit letter) (inr (inl refl))

-- "a b." and "c", with an empty line between
abbrev page : ParsedPage ℕ
page = record { text = 97 ∷ 32 ∷ 98 ∷ 46 ∷ 10 ∷ 32 ∷ 10 ∷ 99 ∷ []; blocks = [] }

abbrev page_units : List (ChunkUnit ℕ)
page_units =
    record { text = words; section = none; regions = []; start = some 0; end_at = some 4 }
    ∷ record { text = letter; section = none; regions = []; start = some 5; end_at = some 6 }
    ∷ []

units-Placed_example : Placed ascii (λ t. t) (normalized ascii (λ t. t) page.text) 0 page_units
unfolding units paragraph_units split_paragraphs part_units place_parts sentence_parts
    split_sentences split_oversized finditer strip lstrip rstrip normalize_highlight_text find_from
units-Placed_example = units-Placed ascii (λ t. t) small page page_units refl refl
