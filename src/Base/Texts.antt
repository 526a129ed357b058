-- ===== src/Base/Texts.antt =====
-- Python's `str` and the patterns of `re` that the sources use, on native strings.
use mathlib.Core.List.{List, [], ◌∷◌}
use Prim.Native.Nat.{ℕ}
use Prim.Native.String.{String, [] as empty, ◌∷◌ as ◌∷ₛ◌, count}
use Prim.Native.Char.{Char, code}
use mathlib.Core.Bool.{Bool, true, false, ◌&&◌, ◌||◌}
use mathlib.Core.Option.{Option, none, some}
use plug_and_play_local_rag.Base.Tests.{leb, ◌==◌, if◌then◌else◌}
use plug_and_play_local_rag.Base.Dicts.{is_some}

-- What follows a prefix.
abbrev pub after_prefix : String → String → Option String
after_prefix empty s = some s
after_prefix (c ∷ₛ p) empty = none
after_prefix (c ∷ₛ p) (d ∷ₛ s) = if code c == code d then after_prefix p s else none

-- s.startswith(p)
abbrev pub starts_with : String → String → Bool
starts_with p s = is_some (after_prefix p s)

abbrev pub ends : String → Bool
ends empty = true
ends (c ∷ₛ s) = false

abbrev pub is_whole : Option String → Bool
is_whole none = false
is_whole (some rest) = ends rest

-- s.endswith(p)
abbrev pub ends_with : String → String → Bool
ends_with p empty = ends p
ends_with p (c ∷ₛ s) = is_whole (after_prefix p (c ∷ₛ s)) || ends_with p s

abbrev pub between : ℕ → ℕ → Char → Bool
between low high c = leb low (code c) && leb (code c) high

abbrev pub is_digit : Char → Bool
is_digit = between 48 57

abbrev pub is_upper : Char → Bool
is_upper = between 65 90

abbrev pub is_lower : Char → Bool
is_lower = between 97 122

abbrev pub is_one_of : List ℕ → Char → Bool
is_one_of [] c = false
is_one_of (n ∷ l) c = (n == code c) || is_one_of l c

abbrev pub each_char : (Char → Bool) → String → Bool
each_char p empty = true
each_char p (c ∷ₛ s) = p c && each_char p s

-- `[first][others]{least,most}` matches the whole of a text.
abbrev pub full_match : (Char → Bool) → (Char → Bool) → ℕ → ℕ → String → Bool
full_match first others least most empty = false
full_match first others least most (c ∷ₛ s) =
    first c && each_char others s && leb least (count s) && leb (count s) most
