-- ===== src/Json.antt =====
-- Values that Python's `json.loads` gives and `json.dumps` takes, with the tests `isinstance` of the
-- sources. The keys of an object are those of a `dict`: none occurs twice.
use plug_and_play_local_rag.Base.{
  ℕ, ◌≡◌, refl, String, List, [], ◌∷◌, map, Bool, true, false, ◌&&◌, Option, none, some, ◌==◌,
  str_eq, if◌then◌else◌, all, Dict, member,
}

-- An integer is `integer n`, or `negative n` for -1 - n; a float that equals the number n is `float n`,
-- any other `other_float`: no source reads more of it.
mutual
  pub data Json : Type 0 where
    null : Json
    boolean : Bool → Json
    integer : ℕ → Json
    negative : ℕ → Json
    float : ℕ → Json
    other_float : Json
    text : String → Json
    array : Elements → Json
    object : Members → Json

  pub data Elements : Type 0 where
    no_elements : Elements
    element : Json → Elements → Elements

  pub data Members : Type 0 where
    no_members : Members
    entry : String → Json → Members → Members

abbrev pub items_of : Elements → List Json
items_of no_elements = []
items_of (element v l) = v ∷ items_of l

abbrev pub elements_of : List Json → Elements
elements_of [] = no_elements
elements_of (v ∷ l) = element v (elements_of l)

abbrev pub dict_of : Members → Dict Json
dict_of no_members = []
dict_of (entry k v m) = (k, v) ∷ dict_of m

abbrev pub members_of : Dict Json → Members
members_of [] = no_members
members_of ((k, v) ∷ d) = entry k v (members_of d)

-- isinstance(value, str)
abbrev pub as_text : Json → Option String
as_text (text s) = some s
as_text value = none

-- isinstance(value, list)
abbrev pub as_array : Json → Option (List Json)
as_array (array l) = some (items_of l)
as_array value = none

-- isinstance(value, dict)
abbrev pub as_object : Json → Option (Dict Json)
as_object (object m) = some (dict_of m)
as_object value = none

-- isinstance(value, int) and not isinstance(value, bool), of a number that is not negative: every
-- source asks for a least number of at least 1.
abbrev pub as_natural : Json → Option ℕ
as_natural (integer n) = some n
as_natural value = none

-- value is None
abbrev pub is_null : Json → Bool
is_null null = true
is_null value = false

-- value == n
abbrev pub equals_number : Json → ℕ → Bool
equals_number (integer m) n = m == n
equals_number (float m) n = m == n
equals_number (boolean b) n = (if b then 1 else 0) == n
equals_number value n = false

-- value == s
abbrev pub equals_text : Json → String → Bool
equals_text (text t) s = str_eq t s
equals_text value s = false

-- `value in {...}` raises a TypeError.
abbrev pub is_unhashable : Json → Bool
is_unhashable (array l) = true
is_unhashable (object m) = true
is_unhashable value = false

abbrev pub keys_of : Dict Json → List String
keys_of [] = []
keys_of ((k, v) ∷ d) = k ∷ keys_of d

-- set(a) == set(b)
abbrev pub same_set : List String → List String → Bool
same_set a b = all (member b) a && all (member a) b

-- value or {}[key]
abbrev pub optional_text : Option String → Json
optional_text none = null
optional_text (some s) = text s

abbrev pub optional_integer : Option ℕ → Json
optional_integer none = null
optional_integer (some n) = integer n

abbrev pub texts : List String → Json
texts l = array (elements_of (map text l))

pub items_of-elements_of : (l : List Json) → items_of (elements_of l) ≡ l
items_of-elements_of [] = refl
items_of-elements_of (v ∷ l) = rw (items_of-elements_of l)

pub dict_of-members_of : (d : Dict Json) → dict_of (members_of d) ≡ d
dict_of-members_of [] = refl
dict_of-members_of ((k, v) ∷ d) = rw (dict_of-members_of d)
