-- ===== src/Manifest/Reading.antt =====
-- manifest.py: each test of a single field accepts what it returns, written as JSON again.
use plug_and_play_local_rag.Base.{
  ℕ, suc, ◌≡◌, refl, sym, ◌∙◌, subst, inl, inr, String, List, [], ◌∷◌, map, true, false, not, ◌&&◌,
  Option, none, some, arith, leb, Bool-cases, str_eq, Result, ok, err, >>=-eq-ok, raise_if-passes,
  ok-injective, member, each_char,
}
use plug_and_play_local_rag.Manifest.{Builtins, ManifestError, manifest_error, type_error}
use plug_and_play_local_rag.Json.{
  Json, as_array, as_natural, as_text, integer, is_null, is_unhashable, items_of-elements_of,
  optional_text, text, texts,
}
use plug_and_play_local_rag.Manifest.Fields.{
  bounded_integer, hex_digest, in_range, is_hex, is_hex_digest, member_of, nonempty, nonempty_text,
  one_of, optional, optional_digest, optional_string, present, read_all, required_string,
  string_array,
}
use plug_and_play_local_rag.Manifest.Contents.{read_naturals}

-- What `str.lower` and `str.strip` do with a text of the digits 0 to 9 and a to f.
pub record HexLaws (py : Builtins) : Type 0 where
  pub lower_hex : (s : String) → each_char is_hex s ≡ true → py.lower s ≡ s
  pub hex_not_blank : (n : ℕ) (s : String) → is_hex_digest (suc n) s ≡ true → py.is_blank s ≡ false

-- What is returned is returned again.
abbrev pub Rereads : {A : Type 0} → (Json → Result ManifestError A) → (A → Json) → Type 0
Rereads {A} read render = (v : Json) (a : A) → read v ≡ ok a → read (render a) ≡ ok a

pub required_string_reread : (py : Builtins) → Rereads (required_string py) text
unfolding required_string
required_string_reread py v s h = at (as_text v) h
  where
    at : (o : Option String) → nonempty py o ≡ ok s → nonempty py (some s) ≡ ok s
    at none h = cc
    at (some t) h = elim (Bool-cases (py.is_blank t)) [
      | inl blank ↦ absurd (let bad : err manifest_error ≡ ok s = sym (rw blank refl) ∙ h in cc)
      | inr full ↦
          let same : t ≡ s = ok-injective (sym (rw full refl) ∙ h) in
          subst (λ x. nonempty py (some x) ≡ ok x) same (rw full refl)
    ]

pub hex_digest_reread :
    (py : Builtins) (laws : HexLaws py) (n : ℕ) → Rereads (hex_digest py (suc n)) text
unfolding hex_digest required_string
hex_digest_reread py laws n v s h =
    let (t, e, h1) = >>=-eq-ok (required_string py v) _ h in
    let (checked, h2) =
      raise_if-passes (not (is_hex_digest (suc n) (py.lower t))) manifest_error _ h1 in
    let same : py.lower t ≡ s = ok-injective h2 in
    let hex : is_hex_digest (suc n) s ≡ true =
      subst (λ x. is_hex_digest (suc n) x ≡ true) same (ground arith) in
    rw (laws.hex_not_blank n s hex, laws.lower_hex s (ground (arith, hex)), hex) refl

pub optional_reread :
    (read : Json → Result ManifestError String)
    → Rereads read text
    → Rereads (optional read) optional_text
optional_reread read again v o h = elim (Bool-cases (is_null v)) [
  | inl null_value ↦
      let same : none ≡ o = ok-injective (sym (rw null_value refl) ∙ h) in
      subst (λ x. optional read (optional_text x) ≡ ok x) same refl
  | inr given ↦
      let (s, e, h1) = >>=-eq-ok (read v) (λ s. ok (some s)) (sym (rw given refl) ∙ h) in
      subst (λ x. optional read (optional_text x) ≡ ok x) (ok-injective h1) (rw (again v s e) refl)
]

pub optional_string_reread : (py : Builtins) → Rereads (optional_string py) optional_text
unfolding optional_string
optional_string_reread py v o h =
    optional_reread (required_string py) (required_string_reread py) v o h

pub optional_digest_reread :
    (py : Builtins) (laws : HexLaws py) (n : ℕ) → Rereads (optional_digest py (suc n)) optional_text
unfolding optional_digest
optional_digest_reread py laws n v o h =
    optional_reread (hex_digest py (suc n)) (hex_digest_reread py laws n) v o h

pub read_all_reread :
    {A : Type 0} (read : Json → Result ManifestError A) (render : A → Json)
    → Rereads read render
    → (l : List Json) {out : List A} → read_all read l ≡ ok out
    → read_all read (map render out) ≡ ok out
read_all_reread read render again [] h =
    subst (λ o. read_all read (map render o) ≡ ok o) (ok-injective h) refl
read_all_reread read render again (v ∷ l) h =
    let (a, first, h1) = >>=-eq-ok (read v) _ h in
    let (rest, others, h2) = >>=-eq-ok (read_all read l) _ h1 in
    subst (λ o. read_all read (map render o) ≡ ok o) (ok-injective h2)
      (rw (again v a first, read_all_reread read render again l others) refl)

nonempty_text_reread : Rereads (λ v. nonempty_text (as_text v)) text
nonempty_text_reread v s h = at (as_text v) h
  where
    at : (o : Option String) → nonempty_text o ≡ ok s → nonempty_text (some s) ≡ ok s
    at none h = cc
    at (some t) h = elim (Bool-cases (str_eq t "")) [
      | inl blank ↦ absurd (let bad : err manifest_error ≡ ok s = sym (rw blank refl) ∙ h in cc)
      | inr full ↦
          let same : t ≡ s = ok-injective (sym (rw full refl) ∙ h) in
          subst (λ x. nonempty_text (some x) ≡ ok x) same (rw full refl)
    ]

pub string_array_reread : Rereads string_array texts
unfolding string_array
string_array_reread v out h =
    let (l, e, h1) = >>=-eq-ok (present manifest_error (as_array v)) _ h in
    rw (items_of-elements_of (map text out))
      (read_all_reread (λ x. nonempty_text (as_text x)) text nonempty_text_reread l h1)

pub bounded_integer_reread : (low high : ℕ) → Rereads (bounded_integer low high) integer
unfolding bounded_integer
bounded_integer_reread low high v n h = at (as_natural v) h
  where
    at : (o : Option ℕ) → in_range low high o ≡ ok n → in_range low high (some n) ≡ ok n
    at none h = cc
    at (some k) h = elim (Bool-cases (leb low k && leb k high)) [
      | inl fits ↦
          let same : k ≡ n = ok-injective (sym (rw fits refl) ∙ h) in
          subst (λ x. in_range low high (some x) ≡ ok x) same (rw fits refl)
      | inr out ↦ absurd (let bad : err manifest_error ≡ ok n = sym (rw out refl) ∙ h in cc)
    ]

pub one_of_reread : (allowed : List String) → Rereads (one_of allowed) text
unfolding one_of
one_of_reread allowed v s h = elim (Bool-cases (is_unhashable v)) [
  | inl list ↦ absurd (let bad : err type_error ≡ ok s = sym (rw list refl) ∙ h in cc)
  | inr other ↦ at (as_text v) (sym (rw other refl) ∙ h)
]
  where
    at : (o : Option String) → member_of allowed o ≡ ok s → member_of allowed (some s) ≡ ok s
    at none h = cc
    at (some t) h = elim (Bool-cases (member allowed t)) [
      | inl listed ↦
          let same : t ≡ s = ok-injective (sym (rw listed refl) ∙ h) in
          subst (λ x. member_of allowed (some x) ≡ ok x) same (rw listed refl)
      | inr out ↦ absurd (let bad : err manifest_error ≡ ok s = sym (rw out refl) ∙ h in cc)
    ]

pub read_naturals_reread :
    (l : List Json) {out : List ℕ}
    → read_naturals l ≡ ok out
    → read_naturals (map integer out) ≡ ok out
read_naturals_reread [] h = subst (λ o. read_naturals (map integer o) ≡ ok o) (ok-injective h) refl
read_naturals_reread (v ∷ l) h =
    let (n, first, h1) = >>=-eq-ok (bounded_integer 1 300 v) _ h in
    let (rest, others, h2) = >>=-eq-ok (read_naturals l) _ h1 in
    subst (λ o. read_naturals (map integer o) ≡ ok o) (ok-injective h2)
      (rw (bounded_integer_reread 1 300 v n first, read_naturals_reread l others) refl)
