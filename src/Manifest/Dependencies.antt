-- ===== src/Manifest/Dependencies.antt =====
-- manifest.py, `_validate_dependencies`: the services that the services name, and that no cycle is
-- among them.
use plug_and_play_local_rag.Base.{
  ℕ, zero, suc, String, List, [], ◌∷◌, map, not, ◌||◌, if◌then◌else◌, length, is_empty, all, Result,
  ok, err, ◌>>◌, raise_if, Dict, put, remove, member,
}
use plug_and_play_local_rag.Manifest.Fields.{texts_distinct}
use plug_and_play_local_rag.Manifest.{Service, ManifestError, manifest_error, out_of_fuel}

-- {service.name for service in services}
abbrev pub names : List Service → List String
names services = map (λ s. s.name) services

unfoldable pub validate_names : List String → Service → Result ManifestError Unit
validate_names known service =
    raise_if
      (not (all (member known) service.dependencies)
        || member service.dependencies service.name
        || not (texts_distinct service.dependencies))
      manifest_error

unfoldable pub validate_all_names : List String → List Service → Result ManifestError Unit
validate_all_names known [] = ok tt
validate_all_names known (service ∷ services) = do
  validate_names known service
  validate_all_names known services

-- {service.name: set(service.dependencies) for service in services}; the dependencies are distinct.
abbrev pub pending_of : List Service → Dict (List String) → Dict (List String)
pending_of [] d = d
pending_of (s ∷ services) d = pending_of services (put d s.name s.dependencies)

-- {name for name, dependencies in pending.items() if not dependencies}
abbrev pub ready_names : Dict (List String) → List String
ready_names [] = []
ready_names ((n, dependencies) ∷ pending) =
    if is_empty dependencies then n ∷ ready_names pending else ready_names pending

-- for name in ready: pending.pop(name)
abbrev pub pop_names : {V : Type 0} → List String → Dict V → Dict V
pop_names [] pending = pending
pop_names (n ∷ ready) pending = pop_names ready (remove pending n)

-- dependencies.difference_update(ready)
abbrev pub difference : List String → List String → List String
difference [] ready = []
difference (d ∷ dependencies) ready =
    let rest = difference dependencies ready in if member ready d then rest else d ∷ rest

abbrev pub difference_update : List String → Dict (List String) → Dict (List String)
difference_update ready [] = []
difference_update ready ((n, dependencies) ∷ pending) =
    (n, difference dependencies ready) ∷ difference_update ready pending

-- while pending: ...
unfoldable pub peel : ℕ → Dict (List String) → Result ManifestError Unit
peel fuel [] = ok tt
peel zero (e ∷ pending) = err out_of_fuel
peel (suc fuel) (e ∷ pending) =
    let ready = ready_names (e ∷ pending) in
    let rest = peel fuel (difference_update ready (pop_names ready (e ∷ pending))) in
    if is_empty ready then err manifest_error else rest

-- `_validate_dependencies`
unfoldable pub validate_dependencies : List Service → Result ManifestError Unit
unfolding validate_all_names peel
validate_dependencies services = do
  validate_all_names (names services) services
  peel (length (pending_of services [])) (pending_of services [])
