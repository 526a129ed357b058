-- ===== src/Services.antt =====
-- apps/supervisor/runtime.py, `_ordered_services`: the order in which the services start; they stop in
-- its reverse. Of a service only the fields that the order reads are modelled.
pub mod Ordering
pub mod Fuel
use plug_and_play_local_rag.Base.{
  ℕ, zero, suc, String, List, [], ◌∷◌, ◌++◌, Bool, true, false, not, if◌then◌else◌, length,
  is_empty, all, Result, ok, err, Dict, put, remove, has,
}
use Prim.Native.Nat.{Ordering as Comparison}
use Prim.Native.String.{compare}

pub record Service : Type 0 where
  pub name : String
  pub dependencies : List String

-- The fuel of the loop is the number of services, which is enough.
pub data OrderError : Type 0 where
  dependency_cycle out_of_fuel : OrderError

-- {service.name: service for service in services}
abbrev pub by_name : List Service → Dict Service → Dict Service
by_name [] d = d
by_name (s ∷ services) d = by_name services (put d s.name s)

abbrev pub is_ready : Dict Service → Service → Bool
is_ready pending s = all (λ d. not (has pending d)) s.dependencies

-- The ready ones of the pending services.
abbrev pub ready_among : Dict Service → Dict Service → List Service
ready_among pending [] = []
ready_among pending ((n, s) ∷ rest) =
    if is_ready pending s then s ∷ ready_among pending rest else ready_among pending rest

abbrev pub is_after : Service → Service → Bool
is_after s t = elim (compare s.name t.name) [ Comparison.gt ↦ true | _ ↦ false ]

-- sorted(ready, key=lambda item: item.name)
abbrev pub insert_by_name : Service → List Service → List Service
insert_by_name s [] = s ∷ []
insert_by_name s (t ∷ l) =
    let rest = insert_by_name s l in if is_after s t then t ∷ rest else s ∷ t ∷ l

abbrev pub sorted_by_name : List Service → List Service
sorted_by_name [] = []
sorted_by_name (s ∷ l) = insert_by_name s (sorted_by_name l)

-- pending.pop(service.name) for each
abbrev pub pop_all : List Service → Dict Service → Dict Service
pop_all [] pending = pending
pop_all (s ∷ l) pending = pop_all l (remove pending s.name)

abbrev pub prepend :
    List Service → Result OrderError (List Service) → Result OrderError (List Service)
prepend l (ok rest) = ok (l ++ rest)
prepend l (err e) = err e

unfoldable pub order : ℕ → Dict Service → Result OrderError (List Service)
order fuel [] = ok []
order zero (e ∷ pending) = err out_of_fuel
order (suc fuel) (e ∷ pending) =
    let ready = sorted_by_name (ready_among (e ∷ pending) (e ∷ pending)) in
    let rest = order fuel (pop_all ready (e ∷ pending)) in
    if is_empty ready then err dependency_cycle else prepend ready rest

unfoldable pub ordered_services : List Service → Result OrderError (List Service)
unfolding order
ordered_services services = order (length (by_name services [])) (by_name services [])
