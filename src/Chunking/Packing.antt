-- ===== src/Chunking/Packing.antt =====
-- chunking.py, `_pack`: no chunk has more than the maximal number of tokens, and every unit is in the
-- text of a chunk.
use plug_and_play_local_rag.Base.{
  ℕ, ◌+◌, ◌≤◌, ◌≡◌, refl, ◌∙◌, inl, inr, List, [], ◌∷◌, ◌++◌, false, not, ◌&&◌, arith, ltb,
  Bool-cases, if-both, is_empty, All, All-append,
}
use plug_and_play_local_rag.Tokens.{Text, CharClasses, count_tokens, join, paragraph_break}
use plug_and_play_local_rag.Tokens.Counting.{count_tokens-strip, count_tokens-join, total_tokens}
use plug_and_play_local_rag.Chunking.{
  Limits, ChunkUnit, PackedChunk, PackState, texts, render, overlap, packed, close_with,
  close_chunk, append_unit, pack_step, pack_loop, repeats_last, finish_pack, pack,
}

module _ {R : Type 0} (chars : CharClasses) (normalize : Text → Text) (limits : Limits) where
  abbrev Fits : PackedChunk R → Type 0
  Fits c = count_tokens chars c.text ≤ limits.max_tokens

  -- The counter of the loop is the number of tokens of the current units, and within the maximum;
  -- so is every closed chunk.
  pub record IsPacked (s : PackState R) : Type 0 where
    pub counted : s.current_tokens ≡ total_tokens chars (texts s.current)
    pub fits : s.current_tokens ≤ limits.max_tokens
    pub closed : All Fits s.chunks

  total-append :
      (us : List (ChunkUnit R)) (u : ChunkUnit R)
      → total_tokens chars (texts (us ++ u ∷ []))
        ≡ total_tokens chars (texts us) + count_tokens chars u.text
  unfolding total_tokens
  total-append [] u = omega arith
  total-append (x ∷ us) u = omega (arith, total-append us u)

  count-packed :
      (us : List (ChunkUnit R))
      → count_tokens chars (packed chars normalize us).text ≡ total_tokens chars (texts us)
  unfolding render
  count-packed us =
      count_tokens-strip chars (join paragraph_break (texts us))
      ∙ count_tokens-join chars (texts us)

  append_unit-IsPacked :
      (s : PackState R) (u : ChunkUnit R)
      → s.current_tokens + count_tokens chars u.text ≤ limits.max_tokens
      → IsPacked s
      → IsPacked (append_unit chars normalize s u (count_tokens chars u.text))
  append_unit-IsPacked s u l v = record {
    counted = omega (arith, v.counted, total-append s.current u);
    fits = l;
    closed = v.closed;
  }

  closed_chunks :
      (s : PackState R) → IsPacked s → All Fits (s.chunks ++ packed chars normalize s.current ∷ [])
  closed_chunks s v =
      All-append Fits s.chunks (packed chars normalize s.current ∷ []) v.closed
        (omega (arith, v.counted, v.fits, count-packed s.current), tt)

  kept_total :
      (kept : List (ChunkUnit R)) (n : ℕ)
      → n ≤ limits.max_tokens
      → (not (is_empty kept)
          && ltb limits.max_tokens (count_tokens chars (join paragraph_break (texts kept)) + n))
        ≡ false
      → count_tokens chars (join paragraph_break (texts kept)) + n ≤ limits.max_tokens
  unfolding total_tokens
  kept_total [] n l h = omega (arith, count_tokens-join chars (texts {R = R} []))
  kept_total (u ∷ kept) n l h = ground arith

  -- What the next chunk begins with leaves room for the unit.
  close_with-IsPacked :
      (s : PackState R) (kept : List (ChunkUnit R)) (n : ℕ)
      → n ≤ limits.max_tokens
      → IsPacked s
      → IsPacked (close_with chars normalize limits s kept n)
        × ((close_with chars normalize limits s kept n).current_tokens + n ≤ limits.max_tokens)
  unfolding close_with
  close_with-IsPacked s kept n l v =
      elim (Bool-cases (
        not (is_empty kept)
        && ltb limits.max_tokens (count_tokens chars (join paragraph_break (texts kept)) + n))) [
          | inl full ↦ rw full (
            record {
              counted = unfold total_tokens in refl;
              fits = omega arith;
              closed = closed_chunks s v;
            },
            omega arith,
          )
          | inr room ↦
              let l' = kept_total kept n l room in
              rw room (
                record {
                  counted = count_tokens-join chars (texts kept);
                  fits = omega (arith, l');
                  closed = closed_chunks s v;
                },
                l',
              )
        ]

  step_room :
      (us : List (ChunkUnit R)) (m n : ℕ)
      → m ≡ total_tokens chars (texts us)
      → limits.target_tokens ≤ limits.max_tokens
      → n ≤ limits.max_tokens
      → (not (is_empty us) && ltb limits.target_tokens (m + n)) ≡ false
      → m + n ≤ limits.max_tokens
  unfolding total_tokens
  step_room [] m n e t l h = omega arith
  step_room (u ∷ us) m n e t l h = ground arith

  pack_step-IsPacked :
      (s : PackState R) (u : ChunkUnit R)
      → limits.target_tokens ≤ limits.max_tokens
      → count_tokens chars u.text ≤ limits.max_tokens
      → IsPacked s
      → IsPacked (pack_step chars normalize limits s u)
  unfolding pack_step close_chunk
  pack_step-IsPacked s u t l v =
      elim (Bool-cases (
        not (is_empty s.current)
        && ltb limits.target_tokens (s.current_tokens + count_tokens chars u.text))) [
          | inl full ↦
              let (kept, room) =
                close_with-IsPacked s (overlap chars normalize limits s.current)
                  (count_tokens chars u.text) l v in
              rw full (
                append_unit-IsPacked
                  (close_with chars normalize limits s (overlap chars normalize limits s.current)
                    (count_tokens chars u.text))
                  u room kept)
          | inr open_chunk ↦ rw open_chunk (
              append_unit-IsPacked s u
                (step_room s.current s.current_tokens (count_tokens chars u.text) v.counted t l
                  open_chunk)
                v)
        ]

  pack_loop-IsPacked :
      (s : PackState R) (us : List (ChunkUnit R))
      → limits.target_tokens ≤ limits.max_tokens
      → All (λ u. count_tokens chars u.text ≤ limits.max_tokens) us
      → IsPacked s
      → IsPacked (pack_loop chars normalize limits s us)
  unfolding pack_loop
  pack_loop-IsPacked s [] t l v = v
  pack_loop-IsPacked s (u ∷ us) t l v =
      pack_loop-IsPacked (pack_step chars normalize limits s u) us t l.1
        (pack_step-IsPacked s u t l.0 v)

  finish_pack-Fits : (s : PackState R) → IsPacked s → All Fits (finish_pack chars normalize s)
  unfolding finish_pack
  finish_pack-Fits s v = if-both (All Fits) (is_empty s.current) v.closed (
      if-both (All Fits)
        (repeats_last chars normalize (packed chars normalize s.current).text s.chunks) v.closed
        (closed_chunks s v))

  abbrev start : PackState R
  start = record { chunks = []; current = []; current_tokens = 0 }

  -- With a target within the maximum and units within the maximum, every chunk that `_pack` returns
  -- has at most the maximal number of tokens.
  pub pack-bounded :
      (us : List (ChunkUnit R))
      → limits.target_tokens ≤ limits.max_tokens
      → All (λ u. count_tokens chars u.text ≤ limits.max_tokens) us
      → All (λ c. count_tokens chars c.text ≤ limits.max_tokens) (pack chars normalize limits us)
  unfolding pack
  pack-bounded us t l = finish_pack-Fits (pack_loop chars normalize limits start us) (
      pack_loop-IsPacked start us t l
        (record { counted = unfold total_tokens in refl; fits = omega arith; closed = tt }))
