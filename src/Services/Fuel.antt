-- ===== src/Services/Fuel.antt =====
-- runtime.py, `_ordered_services`: the loop ends within as many passes as there are services.
use plug_and_play_local_rag.Base.{
  ℕ, zero, suc, ◌≤◌, ◌<◌, ◌≡◌, refl, sym, ◌∙◌, subst, ◌≢◌, inl, inr, String, List, [], ◌∷◌, true,
  false, arith, Bool-cases, if-both, str_eq, str_eq_iff, length, is_empty, All, Result, ok, err,
  Dict, get, put, remove, has,
}
use plug_and_play_local_rag.Services.Ordering.{listed, sorted_by_name-All}
use plug_and_play_local_rag.Services.{
  Service, OrderError, dependency_cycle, out_of_fuel, by_name, is_ready, ready_among,
  sorted_by_name, pop_all, prepend, order, ordered_services,
}

length-remove : (d : Dict Service) (k : String) → length (remove d k) ≤ length d
unfolding remove
length-remove [] k = omega arith
length-remove ((j, s) ∷ d) k = ground (arith, length-remove d k)

length-remove_there :
    (d : Dict Service) (k : String) → has d k ≡ true → length (remove d k) < length d
unfolding remove get
length-remove_there [] k h = cc
length-remove_there ((j, s) ∷ d) k h = ground (arith, length-remove d k, length-remove_there d k)

length-pop_all : (l : List Service) (d : Dict Service) → length (pop_all l d) ≤ length d
length-pop_all [] d = omega arith
length-pop_all (s ∷ l) d = omega (arith, length-remove d s.name, length-pop_all l (remove d s.name))

-- Every service is filed under its name.
abbrev pub Keyed : Dict Service → Type 0
Keyed d = All (λ e. e.0 ≡ e.1.name) d

put-Keyed : (d : Dict Service) (s : Service) → Keyed d → Keyed (put d s.name s)
unfolding put
put-Keyed [] s h = (refl, tt)
put-Keyed ((j, t) ∷ d) s h = elim (Bool-cases (str_eq j s.name)) [
  | inl same ↦ rw same ((str_eq_iff j s.name).0 same, h.1)
  | inr other ↦ rw other (h.0, put-Keyed d s h.1)
]

remove-Keyed : (d : Dict Service) (k : String) → Keyed d → Keyed (remove d k)
unfolding remove
remove-Keyed [] k h = tt
remove-Keyed ((j, t) ∷ d) k h =
    if-both Keyed (str_eq j k) (remove-Keyed d k h.1) (h.0, remove-Keyed d k h.1)

pub pop_all-Keyed : (l : List Service) (d : Dict Service) → Keyed d → Keyed (pop_all l d)
pop_all-Keyed [] d h = h
pop_all-Keyed (s ∷ l) d h = pop_all-Keyed l (remove d s.name) (remove-Keyed d s.name h)

pub by_name-Keyed :
    (services : List Service) (d : Dict Service) → Keyed d → Keyed (by_name services d)
by_name-Keyed [] d h = h
by_name-Keyed (s ∷ services) d h = by_name-Keyed services (put d s.name s) (put-Keyed d s h)

ready_among-Listed :
    (pending d l : Dict Service)
    → Keyed l
    → All (λ e. has d e.0 ≡ true) l
    → All (λ s. has d s.name ≡ true) (ready_among pending l)
ready_among-Listed pending d [] k h = tt
ready_among-Listed pending d ((j, t) ∷ l) k h =
    if-both (All (λ s. has d s.name ≡ true)) (is_ready pending t)
      (subst (λ x. has d x ≡ true) k.0 h.0, ready_among-Listed pending d l k.1 h.1)
      (ready_among-Listed pending d l k.1 h.1)

length-pop_all_there :
    (l : List Service) (d : Dict Service)
    → is_empty l ≡ false
    → All (λ s. has d s.name ≡ true) l
    → length (pop_all l d) < length d
length-pop_all_there [] d e h = cc
length-pop_all_there (s ∷ l) d e h =
    omega (arith, length-remove_there d s.name h.0, length-pop_all l (remove d s.name))

prepend-err :
    (l : List Service) (m : Result OrderError (List Service))
    → prepend l m ≡ err out_of_fuel
    → m ≡ err out_of_fuel
prepend-err l (ok rest) h = cc
prepend-err l (err e) h = h

order-ends :
    (fuel : ℕ) (d : Dict Service) → Keyed d → length d ≤ fuel → order fuel d ≢ err out_of_fuel
unfolding order
order-ends fuel [] k l h = cc
order-ends zero (e ∷ d) k l h = absurd (omega arith)
order-ends (suc fuel) (e ∷ d) k l h =
    let ready = sorted_by_name (ready_among (e ∷ d) (e ∷ d)) in
    elim (Bool-cases (is_empty ready)) [
      | inl stuck ↦
          absurd (let bad : err dependency_cycle ≡ err out_of_fuel = sym (rw stuck refl) ∙ h in cc)
      | inr some_ready ↦
          let there =
            sorted_by_name-All (λ s. has (e ∷ d) s.name ≡ true) (ready_among (e ∷ d) (e ∷ d))
              (ready_among-Listed (e ∷ d) (e ∷ d) (e ∷ d) k (listed (e ∷ d))) in
          order-ends fuel (pop_all ready (e ∷ d)) (pop_all-Keyed ready (e ∷ d) k)
            (omega (arith, length-pop_all_there ready (e ∷ d) some_ready there))
            (prepend-err ready (order fuel (pop_all ready (e ∷ d))) (sym (rw some_ready refl) ∙ h))
    ]

-- The order of the services never runs out of the fuel given: it is an order, or the report of a cycle.
pub ordered_services-ends : (services : List Service) → ordered_services services ≢ err out_of_fuel
unfolding ordered_services
ordered_services-ends services =
    order-ends (length (by_name services [])) (by_name services []) (by_name-Keyed services [] tt)
      (omega arith)
