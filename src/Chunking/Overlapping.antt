-- ===== src/Chunking/Overlapping.antt =====
-- chunking.py, `_overlap`: what a chunk repeats of the one before has at most the overlap's tokens.
use plug_and_play_local_rag.Base.{
  ℕ, zero, suc, ◌+◌, ◌-◌, ◌≤◌, ◌<◌, ◌≡◌, refl, sym, ap, ◌∙◌, List, [], ◌∷◌, none, arith, false, not,
  ◌&&◌, inl, inr, ltb, ◌==◌, ltb→lt, Bool-cases, is_empty, length, drop, length-drop,
}
use mathlib.Core.List.{reverse}
use plug_and_play_local_rag.Tokens.{
  Text, CharClasses, Span, finditer, count_tokens, join, paragraph_break,
}
use plug_and_play_local_rag.Tokens.Counting.{
  count_tokens-strip, count_tokens-join, total_tokens, count_tokens-eq, length-finditer,
}
use plug_and_play_local_rag.Tokens.Slices.{finditer-drop}
use plug_and_play_local_rag.Chunking.Splitting.{nth-drop}
use plug_and_play_local_rag.Chunking.{
  Limits, ChunkUnit, texts, first_start, suffix_text, overlap_loop, overlap,
}

drop_cons :
    (k : ℕ) (l : List Span) → k < length l → (x : Span) × (rest : List Span) × (drop k l ≡ x ∷ rest)
drop_cons zero [] h = absurd (omega arith)
drop_cons zero (x ∷ l) h = (x, l, refl)
drop_cons (suc k) [] h = absurd (omega arith)
drop_cons (suc k) (x ∷ l) h = drop_cons k l (omega arith)

module _ (chars : CharClasses) where
  count-suffix_text :
      (limits : Limits) (text : Text)
      → 0 < limits.overlap_tokens
      → limits.overlap_tokens < count_tokens chars text
      → count_tokens chars (suffix_text chars limits text) ≡ limits.overlap_tokens
  unfolding count_tokens
  count-suffix_text limits text p l =
      let matches = finditer chars 0 none text in
      let k = length matches - limits.overlap_tokens in
      let (x, rest, e) = drop_cons k matches (omega arith) in
      let start : first_start (drop k matches) ≡ x.0 = ap first_start e in
      let cut = finditer-drop chars text k x.0 x.1 (nth-drop k matches e) in
      rw (start) (
        count_tokens-strip chars (drop x.0 text)
        ∙ count_tokens-eq chars (drop x.0 text)
        ∙ sym (length-finditer chars x.0 none (drop x.0 text))
        ∙ ap (λ (m : List Span). length m) cut
        ∙ omega (arith, length-drop k matches))

module _ {R : Type 0} (chars : CharClasses) (normalize : Text → Text) (limits : Limits) where
  abbrev Within : List (ChunkUnit R) → Type 0
  Within us = total_tokens chars (texts us) ≤ limits.overlap_tokens

  within_step :
      (selected : List (ChunkUnit R)) (total tokens : ℕ)
      → total ≡ total_tokens chars (texts selected)
      → tokens ≤ limits.overlap_tokens
      → (not (is_empty selected) && ltb limits.overlap_tokens (total + tokens)) ≡ false
      → total + tokens ≤ limits.overlap_tokens
  unfolding total_tokens
  within_step [] total tokens e l h = omega arith
  within_step (u ∷ us) total tokens e l h = ground arith

  overlap_loop-Within :
      (selected : List (ChunkUnit R)) (total : ℕ) (us : List (ChunkUnit R))
      → 0 < limits.overlap_tokens
      → total ≡ total_tokens chars (texts selected)
      → total ≤ limits.overlap_tokens
      → Within (overlap_loop chars normalize limits selected total us)
  unfolding overlap_loop total_tokens
  overlap_loop-Within selected total [] p e l = omega arith
  overlap_loop-Within selected total (u ∷ us) p e l =
      let tokens = count_tokens chars u.text in
      elim (Bool-cases (not (is_empty selected) && ltb limits.overlap_tokens (total + tokens))) [
        | inl full ↦ rw full (omega arith)
        | inr room ↦ elim (Bool-cases (ltb limits.overlap_tokens tokens)) [
          | inl long ↦
              rw (room, long)
                (omega (arith, count-suffix_text chars limits u.text p (ltb→lt _ _ long)))
          | inr short ↦
              let fits = within_step selected total tokens e (ground arith) room in
              rw (room, short)
                (overlap_loop-Within (u ∷ selected) (total + tokens) us p (omega arith) fits)
        ]
      ]

  overlap-Within : (us : List (ChunkUnit R)) → Within (overlap chars normalize limits us)
  unfolding overlap total_tokens
  overlap-Within us = elim (Bool-cases (limits.overlap_tokens == 0)) [
    | inl none_kept ↦ rw none_kept (omega arith)
    | inr kept ↦ rw kept (overlap_loop-Within [] 0 (reverse us) (ground arith) refl (omega arith))
  ]

  -- The repeated units, joined, have at most as many tokens as the overlap allows.
  pub overlap-bounded :
      (us : List (ChunkUnit R))
      → count_tokens chars (join paragraph_break (texts (overlap chars normalize limits us)))
        ≤ limits.overlap_tokens
  overlap-bounded us = omega (
    arith,
    count_tokens-join chars (texts (overlap chars normalize limits us)),
    overlap-Within us,
  )
