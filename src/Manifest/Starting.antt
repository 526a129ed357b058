-- ===== src/Manifest/Starting.antt =====
-- manifest.py, `_validate_dependencies`, and runtime.py, `_ordered_services`: the two loops come to the
-- same verdict.
use plug_and_play_local_rag.Base.{
  ℕ, zero, suc, ◌≡◌, refl, sym, ap, ◌∙◌, ◌≢◌, inl, inr, String, List, [], ◌∷◌, map, true, not, ◌||◌,
  arith, Bool-cases, if-both, str_eq, if◌then◌else◌, length, is_empty, all, All, All-map, Result,
  ok, err, raise_if-ok, >>-eq-ok, Dict, put, has, get-put, member,
}
use plug_and_play_local_rag.Services.{
  out_of_fuel as order_out_of_fuel, dependency_cycle, Service as StartedService, OrderError,
  dependency_cycle, ready_among, sorted_by_name, pop_all, prepend, order,
}
use plug_and_play_local_rag.Services.Fuel.{ordered_services-ends, Keyed}
use plug_and_play_local_rag.Manifest.{Service, ManifestError, manifest_error}
use plug_and_play_local_rag.Manifest.Dependencies.{pop_names, difference_update, peel}
use plug_and_play_local_rag.Services.{by_name, ordered_services}
use plug_and_play_local_rag.Services.Fuel.{ordered_services-ends, by_name-Keyed, pop_all-Keyed}
use plug_and_play_local_rag.Manifest.Dependencies.{
  names, pending_of, validate_all_names, validate_dependencies, validate_names,
}
use plug_and_play_local_rag.Manifest.Fields.{texts_distinct}
use plug_and_play_local_rag.Manifest.Peeling.{
  started_as, verdict, within, pending_within, names_of, ready_names-within, pop_names-within,
  difference_update-within, pop_all-sorted_by_name, is_empty-sorted_by_name, verdict-prepend,
}
use plug_and_play_local_rag.Manifest.{out_of_fuel}

abbrev peel_with : ℕ → List String → Dict (List String) → Result ManifestError Unit
peel_with fuel ready pending =
    if is_empty ready
    then err manifest_error
    else peel fuel (difference_update ready (pop_names ready pending))

abbrev order_with :
    ℕ → List StartedService → Dict StartedService → Result OrderError (List StartedService)
order_with fuel ready pending =
    if is_empty ready
    then err dependency_cycle
    else prepend ready (order fuel (pop_all ready pending))

-- One pass of each loop, with the same services ready, where the passes after it agree.
pass_agrees :
    (fuel : ℕ) (d : Dict StartedService) (ready : List StartedService)
    → let popped = pop_all (sorted_by_name ready) d in
      peel fuel (pending_within popped popped) ≡ verdict (order fuel popped)
      → peel_with fuel (names_of ready) (pending_within d d)
        ≡ verdict (order_with fuel (sorted_by_name ready) d)
pass_agrees fuel d ready h = elim (Bool-cases (is_empty (names_of ready))) [
  | inl stuck ↦ rw (is_empty-sorted_by_name ready, stuck) refl
  | inr some_ready ↦
      rw
        (
          is_empty-sorted_by_name ready,
          some_ready,
          pop_names-within d (names_of ready) d,
          difference_update-within d (names_of ready) (pop_names (names_of ready) d),
          verdict-prepend (sorted_by_name ready) (order fuel (pop_all (sorted_by_name ready) d)),
          sym (pop_all-sorted_by_name ready d),
        )
        h
]

-- The two loops, on what is pending.
peel-order :
    (fuel : ℕ) (d : Dict StartedService)
    → Keyed d
    → peel fuel (pending_within d d) ≡ verdict (order fuel d)
unfolding peel order
peel-order fuel [] k = refl
peel-order zero (e ∷ d) k = refl
peel-order (suc fuel) (e ∷ d) k =
    let ready = ready_among (e ∷ d) (e ∷ d) in
    let popped = pop_all (sorted_by_name ready) (e ∷ d) in
    ap (λ names. peel_with fuel names (pending_within (e ∷ d) (e ∷ d)))
      (ready_names-within (e ∷ d) (e ∷ d) k)
    ∙ pass_agrees fuel (e ∷ d) ready
        (peel-order fuel popped (pop_all-Keyed (sorted_by_name ready) (e ∷ d) k))

abbrev dependencies_of : Dict StartedService → Dict (List String)
dependencies_of [] = []
dependencies_of ((n, t) ∷ d) = (n, t.dependencies) ∷ dependencies_of d

put-dependencies_of :
    (d : Dict StartedService) (n : String) (t : StartedService)
    → put (dependencies_of d) n t.dependencies ≡ dependencies_of (put d n t)
unfolding put
put-dependencies_of [] n t = refl
put-dependencies_of ((j, u) ∷ d) n t = elim (Bool-cases (str_eq j n)) [
  | inl same ↦ rw same refl
  | inr other ↦ rw (other, put-dependencies_of d n t) refl
]

pending_of-by_name :
    (services : List Service) (d : Dict StartedService)
    → pending_of services (dependencies_of d)
      ≡ dependencies_of (by_name (map started_as services) d)
pending_of-by_name [] d = refl
pending_of-by_name (s ∷ services) d =
    rw (put-dependencies_of d s.name (started_as s))
      (pending_of-by_name services (put d s.name (started_as s)))

has-by_name :
    (services : List Service) (d : Dict StartedService) (k : String)
    → has (by_name (map started_as services) d) k ≡ (member (names services) k || has d k)
has-by_name [] d k = refl
has-by_name (s ∷ services) d k =
    ground (
      arith,
      has-by_name services (put d s.name (started_as s)) k,
      get-put d s.name k (started_as s),
    )

put-All :
    (P : StartedService → Type 0) (d : Dict StartedService) (n : String) (t : StartedService)
    → P t
    → All (λ e. P e.1) d
    → All (λ e. P e.1) (put d n t)
unfolding put
put-All P [] n t p h = (p, tt)
put-All P ((j, u) ∷ d) n t p h =
    if-both (All (λ e. P e.1)) (str_eq j n) (p, h.1) (h.0, put-All P d n t p h.1)

by_name-All :
    (P : StartedService → Type 0) (services : List Service) (d : Dict StartedService)
    → All (λ s. P (started_as s)) services
    → All (λ e. P e.1) d
    → All (λ e. P e.1) (by_name (map started_as services) d)
by_name-All P [] d h k = k
by_name-All P (s ∷ services) d h k =
    by_name-All P services (put d s.name (started_as s)) h.1
      (put-All P d s.name (started_as s) h.0 k)

abbrev Known : List String → Service → Type 0
Known known s = All (λ d. member known d ≡ true) s.dependencies

all-All : (l known : List String) → all (member known) l ≡ true → All (λ d. member known d ≡ true) l
all-All [] known h = tt
all-All (d ∷ l) known h = (ground arith, all-All l known (ground arith))

validate_all_names-Known :
    (known : List String) (services : List Service)
    → validate_all_names known services ≡ ok tt
    → All (Known known) services
unfolding validate_all_names validate_names
validate_all_names-Known known [] h = tt
validate_all_names-Known known (s ∷ services) h =
    let (valid, rest) = >>-eq-ok (validate_names known s) (validate_all_names known services) h in
    let checked =
      raise_if-ok
        (not (all (member known) s.dependencies)
          || member s.dependencies s.name
          || not (texts_distinct s.dependencies))
        manifest_error valid in
    (
      all-All s.dependencies known (ground (arith, checked)),
      validate_all_names-Known known services rest,
    )

within_known :
    (known : Dict StartedService) (l : List String)
    → All (λ d. has known d ≡ true) l
    → within known l ≡ l
within_known known [] h = refl
within_known known (d ∷ l) h = rw (h.0, within_known known l h.1)

pending_within_known :
    (known d : Dict StartedService)
    → All (λ e. All (λ n. has known n ≡ true) e.1.dependencies) d
    → pending_within known d ≡ dependencies_of d
pending_within_known known [] h = refl
pending_within_known known ((n, t) ∷ d) h =
    rw (within_known known t.dependencies h.0, pending_within_known known d h.1)

length-dependencies_of : (d : Dict StartedService) → length (dependencies_of d) ≡ length d
length-dependencies_of [] = refl
length-dependencies_of (e ∷ d) = rw (length-dependencies_of d)

-- If the dependencies of every service are names of services, distinct and not its own, the services are accepted exactly when the
-- supervisor orders them, and refused exactly when it finds a cycle.
pub validate_dependencies-ordered_services :
    (services : List Service)
    → validate_all_names (names services) services ≡ ok tt
    → validate_dependencies services ≡ verdict (ordered_services (map started_as services))
unfolding validate_dependencies ordered_services
validate_dependencies-ordered_services services h =
    let d = by_name (map started_as services) [] in
    let in_order : All (λ e. All (λ n. has d n ≡ true) e.1.dependencies) d =
      by_name-All (λ t. All (λ n. has d n ≡ true) t.dependencies) services []
        (All-map (Known (names services)) (λ s. All (λ n. has d n ≡ true) s.dependencies) services
          (λ s k.
            All-map (λ n. member (names services) n ≡ true) (λ n. has d n ≡ true) s.dependencies
              (λ n m. has-by_name services [] n ∙ rw m refl) k)
          (validate_all_names-Known (names services) services h))
        tt in
    rw
      (
        h,
        pending_of-by_name services [],
        length-dependencies_of d,
        sym (pending_within_known d d in_order),
      )
      (peel-order (length d) d (by_name-Keyed (map started_as services) [] tt))

validate_all_names_ends :
    (known : List String) (services : List Service)
    → validate_all_names known services ≢ err out_of_fuel
unfolding validate_all_names validate_names
validate_all_names_ends known [] h = cc
validate_all_names_ends known (s ∷ services) h =
    elim (Bool-cases (
      not (all (member known) s.dependencies)
      || member s.dependencies s.name
      || not (texts_distinct s.dependencies))) [
        | inl bad ↦ let other : err manifest_error ≡ err out_of_fuel = sym (rw bad refl) ∙ h in cc
        | inr good ↦ validate_all_names_ends known services (sym (rw good refl) ∙ h)
      ]

verdict_ends :
    (r : Result OrderError (List StartedService))
    → r ≢ err order_out_of_fuel
    → verdict r ≢ err out_of_fuel
verdict_ends (ok out) ends h = cc
verdict_ends (err dependency_cycle) ends h = cc
verdict_ends (err order_out_of_fuel) ends h = ends refl

-- The loop over the dependencies never runs out of the fuel given: the services are accepted, or refused
-- with a ManifestError.
validate_dependencies_ends :
    (services : List Service) → validate_dependencies services ≢ err out_of_fuel
unfolding validate_dependencies
validate_dependencies_ends services h = at (validate_all_names (names services) services) refl
  where
    at : (r : Result ManifestError Unit) → validate_all_names (names services) services ≡ r → ⊥
    at (ok tt) e =
        verdict_ends (ordered_services (map started_as services))
          (ordered_services-ends (map started_as services))
          (sym (validate_dependencies-ordered_services services e) ∙ h)
    at (err x) e =
        let same : err x ≡ err out_of_fuel = sym (rw e refl) ∙ h in
        validate_all_names_ends (names services) services (e ∙ same)
