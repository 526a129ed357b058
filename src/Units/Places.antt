-- ===== src/Units/Places.antt =====
-- chunking.py, `_units`: the units of a page without blocks follow each other on the page.
use plug_and_play_local_rag.Base.{
  ℕ, suc, ◌+◌, ◌-◌, ◌≤◌, ◌≡◌, refl, sym, ap, ◌∙◌, subst, inl, inr, List, [], ◌∷◌, ◌++◌, true, false,
  not, Option, none, some, arith, Bool-cases, length, is_empty, take, drop, ok, >>=-eq-ok,
  ok-injective,
}
use plug_and_play_local_rag.Tokens.{Text, CharClasses, strip}
use plug_and_play_local_rag.Chunking.{Limits, ChunkUnit, slice}
use plug_and_play_local_rag.Chunking.Splitting.{drop-drop}
use plug_and_play_local_rag.Units.{
  ParsedPage, is_prefix, find_from, find, split_sentences, sentence_parts, heading, normalized,
  found_at, place_parts, part_units, page_paragraphs, paragraph_units, units,
}

is_prefix-take : (needle s : Text) → is_prefix needle s ≡ true → take (length needle) s ≡ needle
is_prefix-take [] s h = refl
is_prefix-take (c ∷ needle) [] h = cc
is_prefix-take (c ∷ needle) (d ∷ s) h = ground (arith, is_prefix-take needle s)

-- What is found is at a place not before the start, and is the needle.
find_from-found :
    (needle s : Text) (i : ℕ) {k : ℕ}
    → find_from needle i s ≡ some k
    → (n : ℕ) × (k ≡ i + n) × (take (length needle) (drop n s) ≡ needle)
unfolding find_from
find_from-found [] [] i {k} h = let here : i ≡ k = cc in (0, omega arith, refl)
find_from-found (c ∷ needle) [] i h = cc
find_from-found needle (d ∷ s) i {k} h = elim (Bool-cases (is_prefix needle (d ∷ s))) [
  | inl fits ↦
      let found_here : some i ≡ some k = sym (rw fits refl) ∙ h in
      let here : i ≡ k = cc in (0, omega arith, is_prefix-take needle (d ∷ s) fits)
  | inr moves ↦
      let (n, at, same) = find_from-found needle s (i + 1) (sym (rw moves refl) ∙ h) in
      (suc n, omega arith, same)
]

find-slice :
    (page needle : Text) (cursor : ℕ) {k : ℕ}
    → find page needle cursor ≡ some k
    → (cursor ≤ k) × (slice page k (k + length needle) ≡ needle)
find-slice page needle cursor {k} h =
    let (n, at, same) = find_from-found needle (drop cursor page) cursor h in
    (
      omega arith,
      rw (only_length) (
          ap (λ j. take (length needle) (drop j page)) at
          ∙ ap (λ (t : Text). take (length needle) t) (sym (drop-drop n cursor page))
          ∙ same),
    )
  where
    only_length : k + length needle - k ≡ length needle
    only_length = omega arith

found_at-some : (o : Option ℕ) {k : ℕ} → found_at o ≡ ok k → o ≡ some k
found_at-some none h = cc
found_at-some (some start) h = ap some (ok-injective h)

module _ {R : Type 0} (chars : CharClasses) (nfkc : Text → Text) where
  -- The units lie one after the other from the cursor on, each where the page has its normalised text.
  abbrev pub Placed : Text → ℕ → List (ChunkUnit R) → Type 0
  Placed page cursor [] = Unit {0}
  Placed page cursor (u ∷ us) =
      (a : ℕ) × (b : ℕ) × (u.start ≡ some a)
      × (u.end_at ≡ some b)
      × (cursor ≤ a)
      × (a ≤ b)
      × (slice page a b ≡ normalized chars nfkc u.text)
      × Placed page b us

  -- Units up to a cursor, and units from there on.
  place_parts-Placed :
      (page : Text) (section : Option Text) (regions : List R) (parts : List Text) (cursor : ℕ)
      {here : List (ChunkUnit R)} {last : ℕ} (more : List (ChunkUnit R))
      → place_parts chars nfkc page section regions parts cursor ≡ ok (here, last)
      → Placed page last more
      → Placed page cursor (here ++ more)
  unfolding place_parts
  place_parts-Placed page section regions [] cursor {here} {last} more h p =
      let none_here : [] ≡ here = ap (λ x. x.0) (ok-injective h) in
      let same_place : cursor ≡ last = ap (λ x. x.1) (ok-injective h) in
      subst (λ us. Placed page cursor (us ++ more)) none_here
        (subst (λ c. Placed page c more) (sym same_place) p)
  place_parts-Placed page section regions (part ∷ parts) cursor {here} {last} more h p =
      let (start, at, h1) =
        >>=-eq-ok (found_at (find page (normalized chars nfkc part) cursor)) _ h in
      let (rest, placed, h2) =
        >>=-eq-ok
          (place_parts chars nfkc page section regions parts
            (start + length (normalized chars nfkc part)))
          _ h1 in
      let (after, same) =
        find-slice page (normalized chars nfkc part) cursor
          (found_at-some (find page (normalized chars nfkc part) cursor) at) in
      let same_last : rest.1 ≡ last = ap (λ x. x.1) (ok-injective h2) in
      let later =
        place_parts-Placed page section regions parts (start + length (normalized chars nfkc part))
          {here = rest.0} {last = rest.1} more placed
          (subst (λ c. Placed page c more) (sym same_last) p) in
      subst (λ us. Placed page cursor (us ++ more)) (ap (λ x. x.0) (ok-injective h2))
        (
          start,
          start + length (normalized chars nfkc part),
          refl,
          refl,
          after,
          omega arith,
          same,
          later,
        )

  paragraph_units-Placed :
      (limits : Limits) (page : Text) (paragraphs : List (Text × List R)) (section : Option Text)
      (cursor : ℕ) {out : List (ChunkUnit R)}
      → paragraph_units chars nfkc limits false page paragraphs section cursor ≡ ok out
      → Placed page cursor out
  unfolding paragraph_units part_units
  paragraph_units-Placed limits page [] section cursor h =
      subst (λ us. Placed page cursor us) (ok-injective h) tt
  paragraph_units-Placed limits page ((raw, regions) ∷ rest) section cursor h =
      elim (Bool-cases (is_empty (strip chars raw))) [
        | inl blank ↦
            paragraph_units-Placed limits page rest section cursor
              (rw (paragraph_units, blank) at h)
        | inr full ↦
            let paragraph = strip chars raw in
            let parts = sentence_parts chars limits (split_sentences chars false false paragraph) in
            let (here, placed, h1) =
              >>=-eq-ok
                (place_parts chars nfkc page (heading chars paragraph section) regions parts cursor)
                _ (rw (paragraph_units, full) at h) in
            let (more, later, h2) =
              >>=-eq-ok
                (paragraph_units chars nfkc limits false page rest (heading chars paragraph section)
                  here.1)
                _ h1 in
            subst (λ us. Placed page cursor us) (ok-injective h2)
              (place_parts-Placed page (heading chars paragraph section) regions parts cursor
                {here = here.0} {last = here.1} more placed
                (paragraph_units-Placed limits page rest (heading chars paragraph section) here.1
                  later))
      ]

  -- The units of a page without blocks lie one after the other on the normalised page text, without
  -- overlap, and the text there is the normalised text of the unit.
  pub units-Placed :
      (limits : Limits) (page : ParsedPage R) (out : List (ChunkUnit R))
      → is_empty page.blocks ≡ true
      → units chars nfkc limits page ≡ ok out
      → Placed (normalized chars nfkc page.text) 0 out
  unfolding units
  units-Placed limits page out e h =
      let without_blocks : not (is_empty page.blocks) ≡ false = rw e refl in
      paragraph_units-Placed limits (normalized chars nfkc page.text) _ none 0 (
        subst
          (λ b.
            paragraph_units chars nfkc limits b (normalized chars nfkc page.text)
              (page_paragraphs chars nfkc page) none 0
            ≡ ok out)
          without_blocks h)
