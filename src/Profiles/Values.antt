-- ===== src/Profiles/Values.antt =====
-- controller.py, `SignedProfileResolver.resolve`: every signed value reaches its service.
use plug_and_play_local_rag.Base.{
  ◌≡◌, refl, sym, ap, ◌∙◌, inl, inr, String, List, [], ◌∷◌, Bool, true, false, ◌&&◌, Option, none,
  some, arith, Bool-cases, str_eq, str_eq_iff, str_eq_refl, if◌then◌else◌, All, All-map, ok, err,
  >>=-eq-ok, ok-injective, Dict, get, put, has, get-put,
}
use plug_and_play_local_rag.Profiles.{
  RuntimeConfiguration, ResolvedProfile, SignedProfileResolver, ControllerError, found,
  profile_overlap, preset_overlap, profile_of, preset_of, merge, service_values, merge_service,
  merge_profiles, resolve,
}

-- The value of a name in the environment of a service.
abbrev pub lookup : Dict (Dict String) → String → String → Option String
lookup values s n = get (service_values values s) n

abbrev Extends : (String → Option String) → (String → Option String) → Type 0
Extends f g = (n v : String) → f n ≡ some v → g n ≡ some v

merge-Extends :
    (overlap : ControllerError) (l : List (String × String)) (acc : Dict String) {out : Dict String}
    → merge overlap l acc ≡ ok out
    → Extends (get acc) (get out) × All (λ e. get out e.0 ≡ some e.1) l
unfolding merge
merge-Extends overlap [] acc {out} h = ((λ n v e. ap (λ d. get d n) (sym (ok-injective h)) ∙ e), tt)
merge-Extends overlap ((name, value) ∷ l) acc {out} h = elim (Bool-cases (has acc name)) [
  | inl taken ↦ absurd (let bad : err overlap ≡ ok out = sym (rw taken refl) ∙ h in cc)
  | inr free ↦
      let next : merge overlap l (put acc name value) ≡ ok out = sym (rw free refl) ∙ h in
      let (grows, rest) = merge-Extends overlap l (put acc name value) next in
      (
        (λ n v e. grows n v (ground (arith, get-put acc name n value, str_eq_iff name n))),
        (grows name value (get-put acc name name value ∙ rw (str_eq_refl name) refl), rest),
      )
]

lookup-put :
    (values : Dict (Dict String)) (s t n : String) (e : Dict String)
    → lookup (put values s e) t n ≡ (if str_eq s t then get e n else lookup values t n)
lookup-put values s t n e = elim (Bool-cases (str_eq s t)) [
  | inl same ↦ rw (get-put values s t e, same) refl
  | inr other ↦ rw (get-put values s t e, other) refl
]

merge_service-Extends :
    (overlap : ControllerError) (values : Dict (Dict String)) (s : String)
    (l : List (String × String)) {out : Dict (Dict String)}
    → merge_service overlap values s l ≡ ok out
    → ((t : String) → Extends (lookup values t) (lookup out t))
      × All (λ e. lookup out s e.0 ≡ some e.1) l
unfolding merge_service
merge_service-Extends overlap values s l {out} h =
    let (merged, e, written) =
      >>=-eq-ok (merge overlap l (service_values values s)) (λ m. ok (put values s m)) h in
    let (grows, added) = merge-Extends overlap l (service_values values s) e in
    let at : (t n : String)
        → lookup out t n ≡ (if str_eq s t then get merged n else lookup values t n) =
      λ t n. ap (λ d. lookup d t n) (sym (ok-injective written)) ∙ lookup-put values s t n merged in
    (
      (λ t n v was. elim (Bool-cases (str_eq s t)) [
        | inl same ↦
            let s_is_t : s ≡ t = (str_eq_iff s t).0 same in
            at t n ∙ rw same (grows n v (ap (λ x. lookup values x n) s_is_t ∙ was))
        | inr other ↦ at t n ∙ rw other was
      ]),
      All-map (λ e. get merged e.0 ≡ some e.1) (λ e. lookup out s e.0 ≡ some e.1) l
          (λ e hit. at s e.0 ∙ rw (str_eq_refl s) hit) added,
    )

-- Every value of a profile is there.
abbrev pub Carries : Dict (Dict String) → ResolvedProfile → Type 0
Carries values p = All (λ e. lookup values p.service e.0 ≡ some e.1) p.environment

merge_profiles-Carries :
    (ps : List ResolvedProfile) (values : Dict (Dict String)) {out : Dict (Dict String)}
    → merge_profiles ps values ≡ ok out
    → ((t : String) → Extends (lookup values t) (lookup out t)) × All (Carries out) ps
unfolding merge_profiles
merge_profiles-Carries [] values h =
    ((λ t n v e. ap (λ d. lookup d t n) (sym (ok-injective h)) ∙ e), tt)
merge_profiles-Carries (p ∷ ps) values {out} h =
    let (next, here, rest) =
      >>=-eq-ok (merge_service profile_overlap values p.service p.environment) (merge_profiles ps)
        h in
    let (grows, added) =
      merge_service-Extends profile_overlap values p.service p.environment here in
    let (keeps, others) = merge_profiles-Carries ps next rest in
    (
      (λ t n v e. keeps t n v (grows t n v e)),
      (
        All-map (λ e. lookup next p.service e.0 ≡ some e.1)
            (λ e. lookup out p.service e.0 ≡ some e.1) p.environment
            (λ e hit. keeps p.service e.0 e.1 hit) added,
        others,
      ),
    )

-- What `resolve` makes of a signed value: the selection mode of the OCR service is the configuration's.
abbrev pub expected : RuntimeConfiguration → String → String × String → String
expected c service e =
    if str_eq "ocr" service && str_eq "OCR_SELECTION_MODE" e.0 then c.ocr_mode else e.1

abbrev pub Delivers :
    SignedProfileResolver → RuntimeConfiguration → Dict (Dict String) → String → Type 0
Delivers r c values profile_id =
    (p : ResolvedProfile) × (get r.profiles profile_id ≡ some p)
    × All (λ e. lookup values p.service e.0 ≡ some (expected c p.service e)) p.environment

if_some :
    (b : Bool) {o : Option String} (v : String) {w : String}
    → o ≡ some w
    → (if b then some v else o) ≡ some (if b then v else w)
if_some true v h = refl
if_some false v h = h

final_value :
    (tuned : Dict (Dict String)) (c : RuntimeConfiguration) (s : String) (e : String × String)
    → lookup tuned s e.0 ≡ some e.1
    → lookup
        (put tuned "ocr" (put (service_values tuned "ocr") "OCR_SELECTION_MODE" c.ocr_mode))
        s
        e.0
      ≡ some (expected c s e)
final_value tuned c s e h =
    lookup-put tuned "ocr" s e.0 (put (service_values tuned "ocr") "OCR_SELECTION_MODE" c.ocr_mode)
    ∙ elim (Bool-cases (str_eq "ocr" s)) [
      | inl same ↦
          let s_is : "ocr" ≡ s = (str_eq_iff "ocr" s).0 same in
          rw same (
            get-put (service_values tuned "ocr") "OCR_SELECTION_MODE" e.0 c.ocr_mode
            ∙ if_some (str_eq "OCR_SELECTION_MODE" e.0) c.ocr_mode
                (ap (λ x. lookup tuned x e.0) s_is ∙ h))
      | inr other ↦ rw other h
    ]

profile_of-found :
    (r : SignedProfileResolver) (profile_id : String) {p : ResolvedProfile}
    → profile_of r profile_id ≡ ok p
    → get r.profiles profile_id ≡ some p
unfolding profile_of
profile_of-found r profile_id {p} h = known (get r.profiles profile_id) h
  where
    known : (o : Option ResolvedProfile) → found o ≡ ok p → o ≡ some p
    known none g = cc
    known (some q) g = ap some (ok-injective g)

-- A configuration that resolves has its three profiles in the catalog, and each service gets every
-- value of each of them, but for the OCR selection mode, which is the configuration's.
pub resolve-Delivers :
    (r : SignedProfileResolver) (c : RuntimeConfiguration) (values : Dict (Dict String))
    → resolve r c ≡ ok values
    → All
        (Delivers r c values)
        (c.generation_profile_id ∷ c.reranker_profile_id ∷ c.ocr_profile_id ∷ [])
unfolding resolve
resolve-Delivers r c values h =
    let (g, g_ok, h1) = >>=-eq-ok (profile_of r c.generation_profile_id) _ h in
    let (k, k_ok, h2) = >>=-eq-ok (profile_of r c.reranker_profile_id) _ h1 in
    let (o, o_ok, h3) = >>=-eq-ok (profile_of r c.ocr_profile_id) _ h2 in
    let (preset, preset_ok, h4) = >>=-eq-ok (preset_of r c.ocr_preset_id) _ h3 in
    let (merged, merged_ok, h5) = >>=-eq-ok (merge_profiles (g ∷ k ∷ o ∷ []) []) _ h4 in
    let (tuned, tuned_ok, h6) = >>=-eq-ok (merge_service preset_overlap merged "ocr" preset) _ h5 in
    let (grows, _) = merge_service-Extends preset_overlap merged "ocr" preset tuned_ok in
    let (_, carried) = merge_profiles-Carries (g ∷ k ∷ o ∷ []) [] merged_ok in
    let delivered : (p : ResolvedProfile)
        → Carries merged p
        → All (λ e. lookup values p.service e.0 ≡ some (expected c p.service e)) p.environment =
      λ p carries.
        All-map (λ e. lookup merged p.service e.0 ≡ some e.1)
          (λ e. lookup values p.service e.0 ≡ some (expected c p.service e)) p.environment
          (λ e hit.
            ap (λ d. lookup d p.service e.0) (sym (ok-injective h6))
            ∙ final_value tuned c p.service e (grows p.service e.0 e.1 hit))
          carries in
    (
      (g, profile_of-found r c.generation_profile_id g_ok, delivered g carried.0),
      (
        (k, profile_of-found r c.reranker_profile_id k_ok, delivered k carried.1.0),
        ((o, profile_of-found r c.ocr_profile_id o_ok, delivered o carried.1.1.0), tt),
      ),
    )
