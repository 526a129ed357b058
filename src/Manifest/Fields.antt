-- ===== src/Manifest/Fields.antt =====
-- manifest.py: the tests of single fields.
use plug_and_play_local_rag.Base.{
  between, ℕ, String, List, [], ◌∷◌, Bool, true, false, not, ◌&&◌, ◌||◌, Option, none, some, leb,
  ◌==◌, str_eq, if◌then◌else◌, Result, ok, err, ◌>>=◌, ◌>>◌, raise_if, Dict, get, is_some, member,
  ends_with, is_digit, each_char,
}
use Prim.Native.String.{count}
use Prim.Native.Char.{Char}
use plug_and_play_local_rag.Json.{
  Json, as_text, as_array, as_object, as_natural, is_null, is_unhashable, keys_of, same_set,
}
use plug_and_play_local_rag.Manifest.{
  ManifestError, manifest_error, key_error, type_error, Builtins,
}

abbrev pub present : {A : Type 0} → ManifestError → Option A → Result ManifestError A
present e none = err e
present e (some a) = ok a

-- value[key]
abbrev pub item : Dict Json → String → Result ManifestError Json
item value key = present key_error (get value key)

-- if not isinstance(value, dict): raise ManifestError
abbrev pub require_object : Json → Result ManifestError (Dict Json)
require_object value = present manifest_error (as_object value)

-- `_require_exact_keys`
unfoldable pub require_exact_keys : Dict Json → List String → Result ManifestError Unit
require_exact_keys value keys = raise_if (not (same_set (keys_of value) keys)) manifest_error

abbrev pub member_of : List String → Option String → Result ManifestError String
member_of allowed none = err manifest_error
member_of allowed (some s) = if member allowed s then ok s else err manifest_error

-- if value not in {...}: raise ManifestError
unfoldable pub one_of : List String → Json → Result ManifestError String
one_of allowed value =
    if is_unhashable value then err type_error else member_of allowed (as_text value)

abbrev pub nonempty : Builtins → Option String → Result ManifestError String
nonempty py none = err manifest_error
nonempty py (some s) = if py.is_blank s then err manifest_error else ok s

-- `_required_string`
unfoldable pub required_string : Builtins → Json → Result ManifestError String
required_string py value = nonempty py (as_text value)

-- if value is None: return None
abbrev pub optional :
    (Json → Result ManifestError String) → Json → Result ManifestError (Option String)
optional read value = if is_null value then ok none else (do s ← read value; ok (some s))

-- `_optional_string`
unfoldable pub optional_string : Builtins → Json → Result ManifestError (Option String)
optional_string py value = optional (required_string py) value

abbrev pub is_hex : Char → Bool
is_hex c = is_digit c || between 97 102 c

abbrev pub is_hex_digest : ℕ → String → Bool
is_hex_digest size s = (count s == size) && each_char is_hex s

-- `_optional_sha256` and `_optional_sha512`, after their test for None, for the digits of the digest
unfoldable pub hex_digest : Builtins → ℕ → Json → Result ManifestError String
hex_digest py size value = do
  s ← required_string py value
  raise_if (not (is_hex_digest size (py.lower s))) manifest_error
  ok (py.lower s)

unfoldable pub optional_digest : Builtins → ℕ → Json → Result ManifestError (Option String)
optional_digest py size value = optional (hex_digest py size) value

abbrev pub nonempty_text : Option String → Result ManifestError String
nonempty_text none = err manifest_error
nonempty_text (some s) = if str_eq s "" then err manifest_error else ok s

-- Each item is read, in their order.
abbrev pub read_all :
    {A : Type 0} → (Json → Result ManifestError A) → List Json → Result ManifestError (List A)
read_all read [] = ok []
read_all read (value ∷ rest) = do a ← read value; l ← read_all read rest; ok (a ∷ l)

-- `_string_array`
unfoldable pub string_array : Json → Result ManifestError (List String)
string_array value = do
  l ← present manifest_error (as_array value)
  read_all (λ v. nonempty_text (as_text v)) l

abbrev pub in_range : ℕ → ℕ → Option ℕ → Result ManifestError ℕ
in_range low high none = err manifest_error
in_range low high (some n) = if leb low n && leb n high then ok n else err manifest_error

-- An `int` that is no `bool`, between two bounds.
unfoldable pub bounded_integer : ℕ → ℕ → Json → Result ManifestError ℕ
bounded_integer low high value = in_range low high (as_natural value)

-- len(names) == len(set(names))
abbrev pub texts_distinct : List String → Bool
texts_distinct [] = true
texts_distinct (s ∷ l) = not (member l s) && texts_distinct l

abbrev pub same_bool : Bool → Bool → Bool
same_bool true b = b
same_bool false b = not b

-- `_state_config`: the state, and what it configures.
unfoldable pub state_config :
    Builtins → String → Json → Result ManifestError (String × Option String)
unfolding required_string hex_digest
state_config py key_name value = do
  fields ← require_object value
  require_exact_keys fields ("state" ∷ key_name ∷ [])
  state_value ← item fields "state"
  state ← one_of ("not_configured" ∷ "configured" ∷ []) state_value
  configured_value ← item fields key_name
  configured ←
      optional (if ends_with "sha256" key_name then hex_digest py 64 else required_string py)
        configured_value
  raise_if (not (same_bool (str_eq state "configured") (is_some configured))) manifest_error
  ok (state, configured)
