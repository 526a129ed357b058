-- ===== src/Manifest/Peeling.antt =====
-- manifest.py, `_validate_dependencies`, and runtime.py, `_ordered_services`: what one pass of each loop
-- leaves pending.
use plug_and_play_local_rag.Base.{
  ◌≡◌, refl, ◌∙◌, inl, inr, String, List, [], ◌∷◌, map, false, not, ◌&&◌, arith, Bool-cases, str_eq,
  if◌then◌else◌, is_empty, all, Result, ok, err, Dict, remove, has, get-remove, member,
}
use plug_and_play_local_rag.Services.{
  Service as StartedService, OrderError, dependency_cycle, out_of_fuel as order_out_of_fuel,
  is_ready, ready_among, insert_by_name, is_after, sorted_by_name, pop_all, prepend,
}
use plug_and_play_local_rag.Services.Fuel.{Keyed}
use plug_and_play_local_rag.Manifest.{Service, ManifestError, manifest_error, out_of_fuel}
use plug_and_play_local_rag.Manifest.Dependencies.{
  ready_names, pop_names, difference, difference_update,
}

-- What the order of the services reads of a service of the manifest.
abbrev pub started_as : Service → StartedService
started_as s = record { name = s.name; dependencies = s.dependencies }

-- The verdict that goes with an order, or with the lack of one.
abbrev pub verdict : Result OrderError (List StartedService) → Result ManifestError Unit
verdict (ok out) = ok tt
verdict (err dependency_cycle) = err manifest_error
verdict (err order_out_of_fuel) = err out_of_fuel

-- The dependencies that are still pending.
abbrev pub within : Dict StartedService → List String → List String
within known [] = []
within known (d ∷ l) = let rest = within known l in if has known d then d ∷ rest else rest

abbrev pub pending_within : Dict StartedService → Dict StartedService → Dict (List String)
pending_within known [] = []
pending_within known ((n, t) ∷ l) = (n, within known t.dependencies) ∷ pending_within known l

is_empty-within :
    (known : Dict StartedService) (l : List String)
    → is_empty (within known l) ≡ all (λ d. not (has known d)) l
is_empty-within known [] = refl
is_empty-within known (d ∷ l) = ground (arith, is_empty-within known l)

abbrev pub names_of : List StartedService → List String
names_of l = map (λ s. s.name) l

pub ready_names-within :
    (known l : Dict StartedService)
    → Keyed l
    → ready_names (pending_within known l) ≡ names_of (ready_among known l)
ready_names-within known [] k = refl
ready_names-within known ((n, t) ∷ l) k = elim (Bool-cases (is_ready known t)) [
  | inl ready ↦
      rw (is_empty-within known t.dependencies, ready, ready_names-within known l k.1, k.0) refl
  | inr waits ↦
      rw (is_empty-within known t.dependencies, waits, ready_names-within known l k.1) refl
]

remove-within :
    (known l : Dict StartedService) (n : String)
    → remove (pending_within known l) n ≡ pending_within known (remove l n)
unfolding remove
remove-within known [] n = refl
remove-within known ((j, t) ∷ l) n = elim (Bool-cases (str_eq j n)) [
  | inl same ↦ rw same (remove-within known l n)
  | inr other ↦ rw (other, remove-within known l n) refl
]

pub pop_names-within :
    (known : Dict StartedService) (ready : List String) (l : Dict StartedService)
    → pop_names ready (pending_within known l) ≡ pending_within known (pop_names ready l)
pop_names-within known [] l = refl
pop_names-within known (n ∷ ready) l =
    rw (remove-within known l n) (pop_names-within known ready (remove l n))

has-pop_names :
    (ready : List String) (d : Dict StartedService) (k : String)
    → has (pop_names ready d) k ≡ (not (member ready k) && has d k)
has-pop_names [] d k = refl
has-pop_names (n ∷ ready) d k = ground (arith, has-pop_names ready (remove d n) k, get-remove d n k)

difference-within :
    (known : Dict StartedService) (ready l : List String)
    → difference (within known l) ready ≡ within (pop_names ready known) l
difference-within known ready [] = refl
difference-within known ready (d ∷ l) =
    ground (arith, difference-within known ready l, has-pop_names ready known d)

pub difference_update-within :
    (known : Dict StartedService) (ready : List String) (l : Dict StartedService)
    → difference_update ready (pending_within known l) ≡ pending_within (pop_names ready known) l
difference_update-within known ready [] = refl
difference_update-within known ready ((n, t) ∷ l) =
    rw (difference-within known ready t.dependencies, difference_update-within known ready l) refl

remove_comm :
    (d : Dict StartedService) (a b : String) → remove (remove d a) b ≡ remove (remove d b) a
unfolding remove
remove_comm [] a b = refl
remove_comm ((j, t) ∷ d) a b = ground (arith, remove_comm d a b)

pop_all-remove :
    (l : List StartedService) (d : Dict StartedService) (n : String)
    → pop_all l (remove d n) ≡ remove (pop_all l d) n
pop_all-remove [] d n = refl
pop_all-remove (s ∷ l) d n = rw (remove_comm d n s.name) (pop_all-remove l (remove d s.name) n)

pop_all-insert_by_name :
    (s : StartedService) (l : List StartedService) (d : Dict StartedService)
    → pop_all (insert_by_name s l) d ≡ pop_all l (remove d s.name)
pop_all-insert_by_name s [] d = refl
pop_all-insert_by_name s (t ∷ l) d = elim (Bool-cases (is_after s t)) [
  | inl after ↦
      rw (after, remove_comm d s.name t.name) (pop_all-insert_by_name s l (remove d t.name))
  | inr before ↦ rw before refl
]

pub pop_all-sorted_by_name :
    (l : List StartedService) (d : Dict StartedService)
    → pop_all (sorted_by_name l) d ≡ pop_names (names_of l) d
pop_all-sorted_by_name [] d = refl
pop_all-sorted_by_name (s ∷ l) d =
    pop_all-insert_by_name s (sorted_by_name l) d ∙ pop_all-sorted_by_name l (remove d s.name)

is_empty-insert_by_name :
    (s : StartedService) (l : List StartedService) → is_empty (insert_by_name s l) ≡ false
is_empty-insert_by_name s [] = refl
is_empty-insert_by_name s (t ∷ l) = ground arith

pub is_empty-sorted_by_name :
    (l : List StartedService) → is_empty (sorted_by_name l) ≡ is_empty (names_of l)
is_empty-sorted_by_name [] = refl
is_empty-sorted_by_name (s ∷ l) = is_empty-insert_by_name s (sorted_by_name l)

pub verdict-prepend :
    (l : List StartedService) (m : Result OrderError (List StartedService))
    → verdict (prepend l m) ≡ verdict m
verdict-prepend l (ok rest) = refl
verdict-prepend l (err e) = refl
