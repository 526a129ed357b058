-- ===== src/Units.antt =====
-- apps/api/app/services/chunking.py, `_units`: a page is cut into paragraphs,
-- sentences and parts, and each part is found again in the normalised page text.
pub mod Places
use plug_and_play_local_rag.Base.{
  ℕ, zero, suc, ◌+◌, ◌<◌, List, [], ◌∷◌, ◌++◌, map, Bool, true, false, not, ◌&&◌, ◌||◌, Option,
  none, some, ◌==◌, if◌then◌else◌, length, is_empty, drop, Result, ok, err, ◌>>=◌, ◌>>◌,
}
use plug_and_play_local_rag.Tokens.{Text, CharClasses, strip}
use plug_and_play_local_rag.Highlights.{normalize_highlight_text}
use plug_and_play_local_rag.Chunking.{Limits, ChunkUnit, split_oversized}

-- A page, with its blocks and their regions. The other fields are only passed on.
pub record ParsedPage (R : Type 0) : Type 0 where
  pub text : Text
  pub blocks : List (Text × R)

pub data UnitError : Type 0 where
  unit_not_on_page : UnitError

-- The characters of SENTENCE_BOUNDARY's look-behind.
abbrev pub is_terminator : ℕ → Bool
is_terminator c = c == 46 || (c == 33 || (c == 63 || (c == 12290 || (c == 65281 || c == 65311))))

-- The character joins the piece that comes first.
abbrev pub cons_piece : ℕ → List Text → List Text
cons_piece c [] = (c ∷ []) ∷ []
cons_piece c (t ∷ l) = (c ∷ t) ∷ l

-- How many characters of the text `\s*\n` matches, if it does, as many as it can.
abbrev pub or_one_more : Bool → Option ℕ → Option ℕ
or_one_more ends (some k) = some (suc k)
or_one_more true none = some 1
or_one_more false none = none

abbrev pub is_prefix : Text → Text → Bool
is_prefix [] s = true
is_prefix (c ∷ needle) [] = false
is_prefix (c ∷ needle) (d ∷ s) = c == d && is_prefix needle s

-- The first place of the needle in a text that begins at position `i`.
unfoldable pub find_from : Text → ℕ → Text → Option ℕ
find_from needle i [] = if is_empty needle then some i else none
find_from needle i (c ∷ s) =
    let later = find_from needle (i + 1) s in if is_prefix needle (c ∷ s) then some i else later

-- text.find(needle, cursor), of a cursor within the text
abbrev pub find : Text → Text → ℕ → Option ℕ
find text needle cursor = find_from needle cursor (drop cursor text)

module _ (chars : CharClasses) where
  -- SENTENCE_BOUNDARY.split: after a terminator, and inside a boundary.
  unfoldable pub split_sentences : Bool → Bool → Text → List Text
  split_sentences ended inside [] = [] ∷ []
  split_sentences ended inside (c ∷ s) =
      if chars.is_space c && inside
      then split_sentences false true s
      else (if chars.is_space c && ended
          then [] ∷ split_sentences false true s
          else cons_piece c (split_sentences (is_terminator c) false s))

  abbrev pub blank_length : Text → Option ℕ
  blank_length [] = none
  blank_length (c ∷ s) = if chars.is_space c then or_one_more (c == 10) (blank_length s) else none

  -- The separator begins at a line feed that the rest of a separator follows.
  abbrev pub separator_length : ℕ → Text → Option ℕ
  separator_length c s = if c == 10 then blank_length s else none

  abbrev pub open_or_cut : Option ℕ → ℕ → (ℕ → List Text) → List Text
  open_or_cut none c rest = cons_piece c (rest 0)
  open_or_cut (some k) c rest = [] ∷ rest k

  -- re.split(r"\n\s*\n", text), with the number of characters of a separator that are still to come
  unfoldable pub split_paragraphs : ℕ → Text → List Text
  split_paragraphs skip [] = [] ∷ []
  split_paragraphs (suc skip) (c ∷ s) = split_paragraphs skip s
  split_paragraphs zero (c ∷ s) = open_or_cut (separator_length c s) c (λ k. split_paragraphs k s)

  -- The parts of the sentences that are not empty.
  unfoldable pub sentence_parts : Limits → List Text → List Text
  sentence_parts limits [] = []
  sentence_parts limits (t ∷ sentences) =
      let rest = sentence_parts limits sentences in
      if is_empty (strip chars t)
      then rest
      else split_oversized chars limits (strip chars t) ++ rest

  -- paragraph[2:].strip() or section
  abbrev pub or_section : Text → Option Text → Option Text
  or_section [] section = section
  or_section (c ∷ t) section = some (c ∷ t)

  -- `# ` begins a heading.
  abbrev pub heading : Text → Option Text → Option Text
  heading paragraph section =
      if is_prefix (35 ∷ 32 ∷ []) paragraph
      then or_section (strip chars (drop 2 paragraph)) section
      else section

abbrev pub normalized : CharClasses → (Text → Text) → Text → Text
normalized = normalize_highlight_text

-- `if start < 0: raise`
abbrev pub found_at : Option ℕ → Result UnitError ℕ
found_at none = err unit_not_on_page
found_at (some start) = ok start

module _ {R : Type 0} (chars : CharClasses) (nfkc : Text → Text) where
  abbrev pub placed_unit : Option Text → List R → Text → ℕ → ChunkUnit R
  placed_unit section regions part start = record {
    text = part;
    section = section;
    regions = regions;
    start = some start;
    end_at = some (start + length (normalized chars nfkc part));
  }

  abbrev pub block_unit : Option Text → List R → Text → ChunkUnit R
  block_unit section regions part = record {
    text = part;
    section = section;
    regions = regions;
    start = none;
    end_at = none;
  }

  -- The innermost loop, without blocks: the units, and the cursor after them.
  unfoldable pub place_parts :
      Text → Option Text → List R → List Text → ℕ → Result UnitError (List (ChunkUnit R) × ℕ)
  place_parts page section regions [] cursor = ok ([], cursor)
  place_parts page section regions (part ∷ parts) cursor = do
    start ← found_at (find page (normalized chars nfkc part) cursor)
    (units, last) ←
        place_parts page section regions parts (start + length (normalized chars nfkc part))
    ok (placed_unit section regions part start ∷ units, last)

  -- The innermost loop, with or without blocks.
  unfoldable pub part_units :
      Bool → Text → Option Text → List R → List Text → ℕ → Result UnitError (List (ChunkUnit R) × ℕ)
  unfolding place_parts
  part_units true page section regions parts cursor =
      ok (map (block_unit section regions) parts, cursor)
  part_units false page section regions parts cursor = place_parts page section regions parts cursor

  -- The loop over the paragraphs.
  unfoldable pub paragraph_units :
      Limits
      → Bool
      → Text
      → List (Text × List R)
      → Option Text
      → ℕ
      → Result UnitError (List (ChunkUnit R))
  unfolding part_units sentence_parts split_sentences
  paragraph_units limits blocks page [] section cursor = ok []
  paragraph_units limits blocks page ((raw, regions) ∷ rest) section cursor =
      elim (is_empty (strip chars raw)) [
        | true ↦ paragraph_units limits blocks page rest section cursor
        | false ↦ do
          let paragraph : Text = strip chars raw
          let parts : List Text =
              sentence_parts chars limits (split_sentences chars false false paragraph)
          (units, last) ←
              part_units blocks page (heading chars paragraph section) regions parts cursor
          more ← paragraph_units limits blocks page rest (heading chars paragraph section) last
          ok (units ++ more)
      ]

  abbrev pub page_paragraphs : ParsedPage R → List (Text × List R)
  unfolding split_paragraphs
  page_paragraphs page =
      if is_empty page.blocks
      then map (λ t. (t, [])) (split_paragraphs chars 0 (strip chars page.text))
      else map (λ b. (b.0, b.1 ∷ [])) page.blocks

  -- `_units`
  unfoldable pub units : Limits → ParsedPage R → Result UnitError (List (ChunkUnit R))
  unfolding paragraph_units page_paragraphs
  units limits page =
      paragraph_units limits (not (is_empty page.blocks)) (normalized chars nfkc page.text)
        (page_paragraphs page) none 0
