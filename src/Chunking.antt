-- ===== src/Chunking.antt =====
-- apps/api/app/services/chunking.py: splitting oversized sentences and packing units into chunks.
-- Unicode's compatibility form, which the highlight anchors are normalised with, is a parameter.
pub mod Splitting
pub mod Overlapping
pub mod Packing
pub mod Coverage
use plug_and_play_local_rag.Base.{
  ℕ, zero, suc, ◌+◌, ◌-◌, ◌<◌, max, List, [], ◌∷◌, ◌++◌, map, Bool, true, false, not, ◌&&◌, Option,
  none, some, ltb, leb, ◌==◌, if◌then◌else◌, length, is_empty, take, drop, Result, ok, ◌>>=◌, ◌>>◌,
  raise_if,
}
use mathlib.Core.Option
use mathlib.Core.List.{reverse}
use plug_and_play_local_rag.Highlights.{normalize_highlight_text}
use plug_and_play_local_rag.Tokens.{
  Text, CharClasses, Span, finditer, count_tokens, strip, join, paragraph_break,
}

-- `_Unit`: a part of a page, with its regions or its place in the normalised page text.
pub record ChunkUnit (R : Type 0) : Type 0 where
  pub text : Text
  pub section : Option Text
  pub regions : List R
  pub start : Option ℕ
  pub end_at : Option ℕ

pub record Limits : Type 0 where
  pub target_tokens : ℕ
  pub max_tokens : ℕ
  pub overlap_tokens : ℕ

pub data ChunkerError : Type 0 where
  limits_out_of_order : ChunkerError

-- The check of `DocumentChunker.__init__`: 0 <= overlap < target <= max.
unfoldable pub new_chunker : ℕ → ℕ → ℕ → Result ChunkerError Limits
new_chunker target maximum overlap = do
  raise_if (not (ltb overlap target && leb target maximum)) limits_out_of_order
  ok (record { target_tokens = target; max_tokens = maximum; overlap_tokens = overlap })

-- text[a:b]
abbrev pub slice : Text → ℕ → ℕ → Text
slice text a b = take (b - a) (drop a text)

-- group[-1] of a group that is not empty
abbrev pub last_span : Span → List Span → Span
last_span x [] = x
last_span x (y ∷ l) = last_span y l

-- suffix[0].start() of a suffix that is not empty
abbrev pub first_start : List Span → ℕ
first_start [] = 0
first_start (x ∷ l) = x.0

-- a == b on texts
abbrev pub text_eq : Text → Text → Bool
text_eq [] [] = true
text_eq [] (d ∷ t) = false
text_eq (c ∷ s) [] = false
text_eq (c ∷ s) (d ∷ t) = c == d && text_eq s t

-- A triple (text, section, units) of the result of `_pack`.
pub record PackedChunk (R : Type 0) : Type 0 where
  pub text : Text
  pub section : Option Text
  pub units : List (ChunkUnit R)

-- The variables of the loop of `_pack`.
pub record PackState (R : Type 0) : Type 0 where
  pub chunks : List (PackedChunk R)
  pub current : List (ChunkUnit R)
  pub current_tokens : ℕ

-- `if unit.section`: a section that is there and is not the empty text
abbrev pub is_truthy : Option Text → Bool
is_truthy none = false
is_truthy (some s) = not (is_empty s)

-- next((unit.section for unit in units if unit.section), None)
unfoldable pub first_section : {R : Type 0} → List (ChunkUnit R) → Option Text
first_section [] = none
first_section (u ∷ rest) = if is_truthy u.section then u.section else first_section rest

abbrev pub texts : {R : Type 0} → List (ChunkUnit R) → List Text
texts = map (λ u. u.text)

module _ (chars : CharClasses) where
  unfoldable pub render : {R : Type 0} → List (ChunkUnit R) → Text × Option Text
  unfolding first_section
  render units = (strip chars (join paragraph_break (texts units)), first_section (reverse units))

  -- The loop of `_split_oversized` over the groups of matches; the fuel is the number of matches.
  unfoldable pub split_groups : ℕ → ℕ → Text → List Span → List Text
  split_groups zero max_tokens text matches = []
  split_groups (suc fuel) max_tokens text [] = []
  split_groups (suc fuel) max_tokens text (m ∷ matches) =
      strip chars (slice text m.0 (last_span m (take (max_tokens - 1) matches)).1)
      ∷ split_groups fuel max_tokens text (drop (max_tokens - 1) matches)

  unfoldable pub split_oversized : Limits → Text → List Text
  unfolding split_groups
  split_oversized limits text =
      let matches = finditer chars 0 none text in
      if leb (length matches) limits.max_tokens
      then text ∷ []
      else split_groups (length matches) limits.max_tokens text matches

  -- matches[-overlap:] of more than `overlap` matches, and the text from its start on
  abbrev pub suffix_text : Limits → Text → Text
  suffix_text limits text =
      let matches = finditer chars 0 none text in
      strip chars (drop (first_start (drop (length matches - limits.overlap_tokens) matches)) text)

module _ {R : Type 0} (chars : CharClasses) (nfkc : Text → Text) where
  -- The end of the unit stays; a start before the page's text would be negative, and is 0 here.
  abbrev pub suffix_unit : Limits → ChunkUnit R → ChunkUnit R
  suffix_unit limits unit = record unit {
    text = suffix_text chars limits unit.text;
    start =
        Option.map
          (λ e.
            e - length (normalize_highlight_text chars nfkc (suffix_text chars limits unit.text)))
          unit.end_at;
  }

  -- The loop of `_overlap` over the reversed units; `selected` is kept in the order of the result.
  unfoldable pub overlap_loop :
      Limits → List (ChunkUnit R) → ℕ → List (ChunkUnit R) → List (ChunkUnit R)
  overlap_loop limits selected total [] = selected
  overlap_loop limits selected total (unit ∷ rest) =
      let tokens = count_tokens chars unit.text in
      let further = overlap_loop limits (unit ∷ selected) (total + tokens) rest in
      if not (is_empty selected) && ltb limits.overlap_tokens (total + tokens)
      then selected
      else (if ltb limits.overlap_tokens tokens then suffix_unit limits unit ∷ [] else further)

  unfoldable pub overlap : Limits → List (ChunkUnit R) → List (ChunkUnit R)
  unfolding overlap_loop
  overlap limits units =
      if limits.overlap_tokens == 0 then [] else overlap_loop limits [] 0 (reverse units)

  abbrev pub packed : List (ChunkUnit R) → PackedChunk R
  packed units = record {
    text = (render chars units).0;
    section = (render chars units).1;
    units = units;
  }

  -- The chunk is closed, and the next begins with the overlap, if that leaves room.
  unfoldable pub close_with : Limits → PackState R → List (ChunkUnit R) → ℕ → PackState R
  close_with limits s kept unit_tokens =
      let kept_tokens = count_tokens chars (join paragraph_break (texts kept)) in
      let closed = s.chunks ++ packed s.current ∷ [] in
      if not (is_empty kept) && ltb limits.max_tokens (kept_tokens + unit_tokens)
      then record { chunks = closed; current = []; current_tokens = 0 }
      else record { chunks = closed; current = kept; current_tokens = kept_tokens }

  unfoldable pub close_chunk : Limits → PackState R → ℕ → PackState R
  close_chunk limits s unit_tokens = close_with limits s (overlap limits s.current) unit_tokens

  abbrev pub append_unit : PackState R → ChunkUnit R → ℕ → PackState R
  append_unit s unit unit_tokens = record s {
    current = s.current ++ unit ∷ [];
    current_tokens = s.current_tokens + unit_tokens;
  }

  unfoldable pub pack_step : Limits → PackState R → ChunkUnit R → PackState R
  pack_step limits s unit =
      let unit_tokens = count_tokens chars unit.text in
      if not (is_empty s.current) && ltb limits.target_tokens (s.current_tokens + unit_tokens)
      then append_unit (close_chunk limits s unit_tokens) unit unit_tokens
      else append_unit s unit unit_tokens

  unfoldable pub pack_loop : Limits → PackState R → List (ChunkUnit R) → PackState R
  pack_loop limits s [] = s
  pack_loop limits s (unit ∷ rest) = pack_loop limits (pack_step limits s unit) rest

  -- rendered[0] == chunks[-1][0], if there is a last chunk
  unfoldable pub repeats_last : Text → List (PackedChunk R) → Bool
  repeats_last text [] = false
  repeats_last text (c ∷ []) = text_eq text c.text
  repeats_last text (c ∷ d ∷ rest) = repeats_last text (d ∷ rest)

  unfoldable pub finish_pack : PackState R → List (PackedChunk R)
  finish_pack s =
      if is_empty s.current
      then s.chunks
      else (if repeats_last (packed s.current).text s.chunks
          then s.chunks
          else s.chunks ++ packed s.current ∷ [])

  unfoldable pub pack : Limits → List (ChunkUnit R) → List (PackedChunk R)
  pack limits units =
      finish_pack
        (pack_loop limits (record { chunks = []; current = []; current_tokens = 0 }) units)
