-- ===== src/Chunking/Coverage.antt =====
-- chunking.py, `_pack`: no unit is lost.
use plug_and_play_local_rag.Base.{
  ℕ, ◌+◌, ◌≡◌, refl, sym, subst, ◌⊎◌, inl, inr, List, [], ◌∷◌, ◌++◌, true, not, ◌&&◌, arith, ltb,
  Bool-cases, if-both, is_empty,
}
use plug_and_play_local_rag.Tokens.{Text, CharClasses, count_tokens, join, paragraph_break}
use plug_and_play_local_rag.Chunking.{
  Limits, ChunkUnit, PackedChunk, PackState, text_eq, texts, render, overlap, packed, close_with,
  close_chunk, append_unit, pack_step, pack_loop, repeats_last, finish_pack, pack,
}

text_eq-eq : (s t : Text) → text_eq s t ≡ true → s ≡ t
text_eq-eq [] [] h = refl
text_eq-eq [] (d ∷ t) h = cc
text_eq-eq (c ∷ s) [] h = cc
text_eq-eq (c ∷ s) (d ∷ t) h = ground (arith, text_eq-eq s t)

module _ {R : Type 0} (chars : CharClasses) (normalize : Text → Text) (limits : Limits) where
  -- The unit is one of these.
  abbrev pub Has : ChunkUnit R → List (ChunkUnit R) → Type 0
  Has u [] = ⊥
  Has u (x ∷ us) = (u ≡ x) ⊎ Has u us

  -- A chunk has the text that units with `u` among them are rendered to.
  abbrev pub Covered : ChunkUnit R → List (PackedChunk R) → Type 0
  Covered u [] = ⊥
  Covered u (c ∷ cs) =
      ((us : List (ChunkUnit R)) × Has u us × (c.text ≡ (render chars us).0)) ⊎ Covered u cs

  Has-last : (u : ChunkUnit R) (us : List (ChunkUnit R)) → Has u (us ++ u ∷ [])
  Has-last u [] = inl refl
  Has-last u (x ∷ us) = inr (Has-last u us)

  Has-append : (u : ChunkUnit R) (us vs : List (ChunkUnit R)) → Has u us → Has u (us ++ vs)
  Has-append u [] vs h = absurd h
  Has-append u (x ∷ us) vs (inl e) = inl e
  Has-append u (x ∷ us) vs (inr h) = inr (Has-append u us vs h)

  Covered-append :
      (u : ChunkUnit R) (cs ds : List (PackedChunk R)) → Covered u cs → Covered u (cs ++ ds)
  Covered-append u [] ds h = absurd h
  Covered-append u (c ∷ cs) ds (inl e) = inl e
  Covered-append u (c ∷ cs) ds (inr h) = inr (Covered-append u cs ds h)

  Covered-last :
      (u : ChunkUnit R) (us : List (ChunkUnit R)) (cs : List (PackedChunk R))
      → Has u us
      → Covered u (cs ++ packed chars normalize us ∷ [])
  Covered-last u us [] h = inl (us, h, refl)
  Covered-last u us (c ∷ cs) h = inr (Covered-last u us cs h)

  -- The unit is in a closed chunk, or waits in the current one.
  abbrev Seen : ChunkUnit R → PackState R → Type 0
  Seen u s = Covered u s.chunks ⊎ Has u s.current

  close_with-Covered :
      (u : ChunkUnit R) (s : PackState R) (kept : List (ChunkUnit R)) (n : ℕ)
      → Seen u s
      → Covered u (close_with chars normalize limits s kept n).chunks
  unfolding close_with
  close_with-Covered u s kept n h =
      if-both (λ (t : PackState R). Covered u t.chunks)
        (not (is_empty kept)
          && ltb limits.max_tokens (count_tokens chars (join paragraph_break (texts kept)) + n))
        (closed h) (closed h)
    where
      closed : Seen u s → Covered u (s.chunks ++ packed chars normalize s.current ∷ [])
      closed (inl c) = Covered-append u s.chunks (packed chars normalize s.current ∷ []) c
      closed (inr c) = Covered-last u s.current s.chunks c

  append_unit-Seen :
      (u v : ChunkUnit R) (s : PackState R) (n : ℕ)
      → Seen u s
      → Seen u (append_unit chars normalize s v n)
  append_unit-Seen u v s n (inl c) = inl c
  append_unit-Seen u v s n (inr h) = inr (Has-append u s.current (v ∷ []) h)

  pack_step-Seen :
      (u v : ChunkUnit R) (s : PackState R)
      → Seen u s
      → Seen u (pack_step chars normalize limits s v)
  unfolding pack_step close_chunk
  pack_step-Seen u v s h =
      if-both (Seen u)
        (not (is_empty s.current)
          && ltb limits.target_tokens (s.current_tokens + count_tokens chars v.text))
        (inl (
          close_with-Covered u s (overlap chars normalize limits s.current)
            (count_tokens chars v.text) h))
        (append_unit-Seen u v s (count_tokens chars v.text) h)

  pack_step-Seen_self :
      (u : ChunkUnit R) (s : PackState R) → Seen u (pack_step chars normalize limits s u)
  unfolding pack_step close_chunk
  pack_step-Seen_self u s =
      if-both (Seen u)
        (not (is_empty s.current)
          && ltb limits.target_tokens (s.current_tokens + count_tokens chars u.text))
        (inr (
          Has-last u
            (close_with chars normalize limits s (overlap chars normalize limits s.current)
              (count_tokens chars u.text)).current))
        (inr (Has-last u s.current))

  pack_loop-Seen :
      (u : ChunkUnit R) (s : PackState R) (us : List (ChunkUnit R))
      → Seen u s ⊎ Has u us
      → Seen u (pack_loop chars normalize limits s us)
  unfolding pack_loop
  pack_loop-Seen u s [] (inl h) = h
  pack_loop-Seen u s [] (inr h) = absurd h
  pack_loop-Seen u s (v ∷ us) (inl h) =
      pack_loop-Seen u (pack_step chars normalize limits s v) us (inl (pack_step-Seen u v s h))
  pack_loop-Seen u s (v ∷ us) (inr (inl e)) =
      pack_loop-Seen u (pack_step chars normalize limits s v) us (
        inl (
          subst (λ (w : ChunkUnit R). Seen u (pack_step chars normalize limits s w)) e
            (pack_step-Seen_self u s)))
  pack_loop-Seen u s (v ∷ us) (inr (inr h)) =
      pack_loop-Seen u (pack_step chars normalize limits s v) us (inr h)

  repeats_last-Covered :
      (u : ChunkUnit R) (us : List (ChunkUnit R)) (cs : List (PackedChunk R))
      → Has u us
      → repeats_last chars normalize (render chars us).0 cs ≡ true
      → Covered u cs
  unfolding repeats_last
  repeats_last-Covered u us [] h r = cc
  repeats_last-Covered u us (c ∷ []) h r =
      inl (us, h, sym (text_eq-eq (render chars us).0 c.text r))
  repeats_last-Covered u us (c ∷ d ∷ cs) h r = inr (repeats_last-Covered u us (d ∷ cs) h r)

  finish_pack-Covered :
      (u : ChunkUnit R) (s : PackState R) → Seen u s → Covered u (finish_pack chars normalize s)
  unfolding finish_pack
  finish_pack-Covered u s (inl c) = if-both (Covered u) (is_empty s.current) c (
      if-both (Covered u)
        (repeats_last chars normalize (packed chars normalize s.current).text s.chunks) c
        (Covered-append u s.chunks (packed chars normalize s.current ∷ []) c))
  finish_pack-Covered u s (inr h) = elim (Bool-cases (is_empty s.current)) [
    | inl none_left ↦ absurd (no_unit s.current h none_left)
    | inr some_left ↦
        elim (Bool-cases
          (repeats_last chars normalize (packed chars normalize s.current).text s.chunks)) [
            | inl same ↦ rw (some_left, same) (repeats_last-Covered u s.current s.chunks h same)
            | inr new ↦ rw (some_left, new) (Covered-last u s.current s.chunks h)
          ]
  ]
    where
      no_unit : (us : List (ChunkUnit R)) → Has u us → is_empty us ≡ true → ⊥
      no_unit [] i e = i
      no_unit (x ∷ us) i e = cc

  -- Every unit is among units whose rendered text is the text of a chunk that `_pack` returns.
  pub pack-Covered :
      (us : List (ChunkUnit R)) (u : ChunkUnit R)
      → Has u us
      → Covered u (pack chars normalize limits us)
  unfolding pack
  pack-Covered us u h =
      finish_pack-Covered u
        (pack_loop chars normalize limits (record { chunks = []; current = []; current_tokens = 0 })
          us)
        (pack_loop-Seen u (record { chunks = []; current = []; current_tokens = 0 }) us (inr h))
