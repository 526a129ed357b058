-- ===== src/Base/Dicts.antt =====
-- Python's `dict` with string keys, as an association list that new keys are appended to, and
-- Python's `set` of strings.
use Prim.Native.Nat.{suc}
use Prim.Native.String.{String}
use mathlib.Core.Path.{◌≡◌, refl}
use mathlib.Core.Bool.{Bool, true, false, ◌||◌}
use mathlib.Core.Option.{Option, none, some}
use mathlib.Core.List.{List, [], ◌∷◌}
use native.Mathlib.Omega.{arith}
use plug_and_play_local_rag.Base.Tests.{str_eq, str_eq_iff, str_eq_refl, if◌then◌else◌}
use plug_and_play_local_rag.Base.Lists.{length, is_empty}

abbrev pub Dict {ℓ} : Type ℓ → Type ℓ
Dict V = List (String × V)

module _ {ℓ} {V : Type ℓ} where
  -- d.get(k)
  unfoldable pub get : Dict V → String → Option V
  get [] k = none
  get ((j, v) ∷ d) k = if str_eq j k then some v else get d k

  -- d[k] = v
  unfoldable pub put : Dict V → String → V → Dict V
  put [] k v = (k, v) ∷ []
  put ((j, w) ∷ d) k v = if str_eq j k then (j, v) ∷ d else (j, w) ∷ put d k v

  -- d.pop(k, None), del d[k]
  unfoldable pub remove : Dict V → String → Dict V
  remove [] k = []
  remove ((j, v) ∷ d) k = let rest = remove d k in if str_eq j k then rest else (j, v) ∷ rest

  -- k in d
  abbrev pub is_some : Option V → Bool
  is_some none = false
  is_some (some v) = true

  abbrev pub has : Dict V → String → Bool
  has d k = is_some (get d k)

  pub get-put :
      (d : Dict V) (k j : String) (v : V)
      → get (put d k v) j ≡ (if str_eq k j then some v else get d j)
  unfolding get put
  get-put [] k j v = refl
  get-put ((i, w) ∷ d) k j v =
      ground (arith, str_eq_iff k j, str_eq_iff i k, str_eq_iff i j, get-put d k j v)

  pub get-remove :
      (d : Dict V) (k j : String) → get (remove d k) j ≡ (if str_eq k j then none else get d j)
  unfolding get remove
  get-remove [] k j = ground arith
  get-remove ((i, w) ∷ d) k j =
      ground (arith, str_eq_iff k j, str_eq_iff i k, str_eq_iff i j, get-remove d k j)

  -- A dictionary is empty exactly when no key is found.
  pub is_empty-get : (d : Dict V) (k : String) → is_empty d ≡ true → get d k ≡ none
  unfolding get
  is_empty-get [] k h = refl
  is_empty-get (e ∷ d) k h = cc

  pub get-is_empty : (d : Dict V) → ((k : String) → get d k ≡ none) → is_empty d ≡ true
  unfolding get
  get-is_empty [] h = refl
  get-is_empty ((j, v) ∷ d) h = ground (arith, h j, str_eq_refl j)

pub ruleset dict_laws = (get-put, get-remove, str_eq_refl)

-- x in s
abbrev pub member : List String → String → Bool
member [] k = false
member (j ∷ s) k = str_eq j k || member s k

-- s.add(x)
unfoldable pub add : List String → String → List String
add s k = if member s k then s else k ∷ s

-- s.discard(x); s.remove(x) after a membership test
unfoldable pub discard : List String → String → List String
discard [] k = []
discard (j ∷ s) k = let rest = discard s k in if str_eq j k then rest else j ∷ rest

-- No element is listed twice: what `add` keeps.
abbrev pub Distinct : List String → Type 0
Distinct [] = Unit {0}
Distinct (j ∷ s) = (member s j ≡ false) × Distinct s

pub member-add : (s : List String) (k j : String) → member (add s k) j ≡ (str_eq k j || member s j)
unfolding add
member-add s k j = ground (arith, str_eq_iff k j)

pub member-discard :
    (s : List String) (k j : String)
    → member (discard s k) j ≡ (if str_eq k j then false else member s j)
unfolding discard
member-discard [] k j = ground arith
member-discard (i ∷ s) k j =
    ground (arith, str_eq_iff k j, str_eq_iff i k, str_eq_iff i j, member-discard s k j)

pub add-Distinct : (s : List String) (k : String) → Distinct s → Distinct (add s k)
unfolding add
add-Distinct s k h = ground arith

pub discard-Distinct : (s : List String) (k : String) → Distinct s → Distinct (discard s k)
unfolding discard
discard-Distinct [] k h = tt
discard-Distinct (j ∷ s) k h = ground (arith, discard-Distinct s k h.1, member-discard s k j)

pub discard-absent : (s : List String) (k : String) → member s k ≡ false → discard s k ≡ s
unfolding discard
discard-absent [] k h = refl
discard-absent (j ∷ s) k h = ground (arith, discard-absent s k)

pub length-add :
    (s : List String) (k : String) → member s k ≡ false → length (add s k) ≡ suc (length s)
unfolding add
length-add s k h = ground arith

pub length-discard :
    (s : List String) (k : String)
    → Distinct s
    → member s k ≡ true
    → suc (length (discard s k)) ≡ length s
unfolding discard
length-discard [] k h m = cc
length-discard (j ∷ s) k h m =
    ground (arith, str_eq_iff j k, discard-absent s k, length-discard s k h.1)

pub ruleset set_laws = (member-add, member-discard, str_eq_refl)
