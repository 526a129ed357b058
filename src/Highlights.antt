-- ===== src/Highlights.antt =====
-- apps/api/app/services/highlight_anchors.py, `normalize_highlight_text`. `unicodedata.normalize` is a
-- parameter.
use plug_and_play_local_rag.Base.{[], ◌∷◌, Bool, true, false, ◌==◌, if◌then◌else◌}
use plug_and_play_local_rag.Tokens.{Text, CharClasses, strip}

-- value.replace("\u00ad", "")
abbrev pub without_soft_hyphens : Text → Text
without_soft_hyphens [] = []
without_soft_hyphens (c ∷ s) =
    if c == 173 then without_soft_hyphens s else c ∷ without_soft_hyphens s

module _ (chars : CharClasses) (nfkc : Text → Text) where
  -- `_WHITESPACE.sub(" ", …)`, outside and inside a run of spaces
  abbrev pub collapse_spaces : Bool → Text → Text
  collapse_spaces inside [] = []
  collapse_spaces inside (c ∷ s) =
      if chars.is_space c
      then (if inside then collapse_spaces true s else 32 ∷ collapse_spaces true s)
      else c ∷ collapse_spaces false s

  unfoldable pub normalize_highlight_text : Text → Text
  normalize_highlight_text value =
      strip chars (collapse_spaces false (without_soft_hyphens (nfkc value)))
