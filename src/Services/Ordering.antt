-- ===== src/Services/Ordering.antt =====
-- runtime.py, `_ordered_services`: every service starts after those it depends on, and none is left out.
use plug_and_play_local_rag.Base.{
  ℕ, zero, suc, ◌≡◌, refl, sym, ◌∙◌, subst, ◌⊎◌, inl, inr, String, List, [], ◌∷◌, ◌++◌, Bool, true,
  false, not, ◌||◌, arith, Bool-cases, if-both, str_eq, str_eq_refl, length, is_empty, all, All,
  All-map, Result, ok, err, ok-injective, Dict, get, remove, has, get-remove, member,
}
use plug_and_play_local_rag.Services.{
  Service, OrderError, dependency_cycle, by_name, is_ready, is_after, ready_among, insert_by_name,
  sorted_by_name, pop_all, prepend, order, ordered_services,
}

-- The names started after a list of services.
abbrev pub started : List Service → List String → List String
started [] seen = seen
started (s ∷ l) seen = started l (s.name ∷ seen)

-- The dependencies that are services have started.
abbrev pub Startable : Dict Service → List String → Service → Type 0
Startable known seen s = All (λ d. has known d ≡ true → member seen d ≡ true) s.dependencies

abbrev pub InOrder : Dict Service → List String → List Service → Type 0
InOrder known seen [] = Unit {0}
InOrder known seen (s ∷ l) = Startable known seen s × InOrder known (s.name ∷ seen) l

or_true : (b : Bool) → (b || true) ≡ true
or_true true = refl
or_true false = refl

Startable-later :
    (known : Dict Service) (seen : List String) (n : String) (s : Service)
    → Startable known seen s
    → Startable known (n ∷ seen) s
Startable-later known seen n s h =
    All-map (λ d. has known d ≡ true → member seen d ≡ true)
      (λ d. has known d ≡ true → member (n ∷ seen) d ≡ true) s.dependencies
      (λ d f k. rw (f k) (or_true (str_eq n d))) h

InOrder-append :
    (known : Dict Service) (seen : List String) (l rest : List Service)
    → All (Startable known seen) l
    → InOrder known (started l seen) rest
    → InOrder known seen (l ++ rest)
InOrder-append known seen [] rest h k = k
InOrder-append known seen (s ∷ l) rest h k = (
  h.0,
  InOrder-append known (s.name ∷ seen) l rest
      (All-map (Startable known seen) (Startable known (s.name ∷ seen)) l
        (Startable-later known seen s.name) h.1)
      k,
)

started-append :
    (l rest : List Service) (seen : List String)
    → started (l ++ rest) seen ≡ started rest (started l seen)
started-append [] rest seen = refl
started-append (s ∷ l) rest seen = started-append l rest (s.name ∷ seen)

has-cons :
    (d : Dict Service) (j k : String) (t : Service) → has d k ≡ true → has ((j, t) ∷ d) k ≡ true
unfolding get
has-cons d j k t h = ground arith

-- Every entry of a dictionary is found in it.
pub listed : (d : Dict Service) → All (λ e. has d e.0 ≡ true) d
unfolding get
listed [] = tt
listed ((j, t) ∷ d) = (
  ground (arith, str_eq_refl j),
  All-map (λ e. has d e.0 ≡ true) (λ e. has ((j, t) ∷ d) e.0 ≡ true) d (λ e h. has-cons d j e.0 t h)
      (listed d),
)

-- A service has started or is pending.
abbrev Accounted : Dict Service → List String → String → Type 0
Accounted pending seen n = (member seen n ≡ true) ⊎ (has pending n ≡ true)

pop_all-Accounted :
    (l : List Service) (pending : Dict Service) (seen : List String) (n : String)
    → Accounted pending seen n
    → Accounted (pop_all l pending) (started l seen) n
pop_all-Accounted [] pending seen n a = a
pop_all-Accounted (s ∷ l) pending seen n a =
    pop_all-Accounted l (remove pending s.name) (s.name ∷ seen) n moved
  where
    moved : Accounted (remove pending s.name) (s.name ∷ seen) n
    moved = elim a [
      | inl m ↦ inl (rw m (or_true (str_eq s.name n)))
      | inr p ↦ elim (Bool-cases (str_eq s.name n)) [
        | inl same ↦ inl (rw same refl)
        | inr other ↦ inr (rw (get-remove pending s.name n, other) p)
      ]
    ]

pub insert_by_name-All :
    (P : Service → Type 0) (s : Service) (l : List Service)
    → P s
    → All P l
    → All P (insert_by_name s l)
insert_by_name-All P s [] p h = (p, tt)
insert_by_name-All P s (t ∷ l) p h =
    if-both (All P) (is_after s t) (h.0, insert_by_name-All P s l p h.1) (p, h)

pub sorted_by_name-All :
    (P : Service → Type 0) (l : List Service) → All P l → All P (sorted_by_name l)
sorted_by_name-All P [] h = tt
sorted_by_name-All P (s ∷ l) h =
    insert_by_name-All P s (sorted_by_name l) h.0 (sorted_by_name-All P l h.1)

ready-Startable :
    (known pending : Dict Service) (seen : List String) (s : Service)
    → ((n : String) → has known n ≡ true → Accounted pending seen n)
    → is_ready pending s ≡ true
    → Startable known seen s
ready-Startable known pending seen s a h = each_dep s.dependencies h
  where
    each_dep :
        (l : List String)
        → all (λ d. not (has pending d)) l ≡ true
        → All (λ d. has known d ≡ true → member seen d ≡ true) l
    each_dep [] g = tt
    each_dep (d ∷ l) g = ((λ k. settled (a d k)), each_dep l (ground arith))
      where
        settled : Accounted pending seen d → member seen d ≡ true
        settled (inl m) = m
        settled (inr p) = ground arith

ready_among-Startable :
    (known pending : Dict Service) (seen : List String) (l : Dict Service)
    → ((n : String) → has known n ≡ true → Accounted pending seen n)
    → All (Startable known seen) (ready_among pending l)
ready_among-Startable known pending seen [] a = tt
ready_among-Startable known pending seen ((n, s) ∷ l) a = elim (Bool-cases (is_ready pending s)) [
  | inl ready ↦
      rw ready
        (ready-Startable known pending seen s a ready, ready_among-Startable known pending seen l a)
  | inr waits ↦ rw waits (ready_among-Startable known pending seen l a)
]

prepend-ok :
    (l : List Service) (m : Result OrderError (List Service)) {out : List Service}
    → prepend l m ≡ ok out
    → (rest : List Service) × (m ≡ ok rest) × (l ++ rest ≡ out)
prepend-ok l (ok rest) h = (rest, refl, ok-injective h)
prepend-ok l (err e) h = cc

order-InOrder :
    (known : Dict Service) (fuel : ℕ) (pending : Dict Service) (seen : List String)
    {out : List Service}
    → ((n : String) → has known n ≡ true → Accounted pending seen n)
    → order fuel pending ≡ ok out
    → InOrder known seen out
      × ((n : String) → has known n ≡ true → member (started out seen) n ≡ true)
unfolding order get
order-InOrder known fuel [] seen a h =
    subst
      (λ o.
        InOrder known seen o
        × ((n : String) → has known n ≡ true → member (started o seen) n ≡ true))
      (ok-injective h)
      (
        tt,
        (λ n k. elim (a n k) [
          | inl m ↦ m
          | inr none_left ↦ absurd (let bad : false ≡ true = none_left in cc)
        ]),
      )
order-InOrder known zero (e ∷ pending) seen a h = cc
order-InOrder known (suc fuel) (e ∷ pending) seen a h =
    let ready = sorted_by_name (ready_among (e ∷ pending) (e ∷ pending)) in
    elim (Bool-cases (is_empty ready)) [
      | inl stuck ↦ absurd (let bad : err dependency_cycle ≡ ok _ = sym (rw stuck refl) ∙ h in cc)
      | inr some_ready ↦
          let (rest, later, joined) =
            prepend-ok ready (order fuel (pop_all ready (e ∷ pending)))
              (sym (rw some_ready refl) ∙ h) in
          let (in_order, complete) =
            order-InOrder known fuel (pop_all ready (e ∷ pending)) (started ready seen)
              (λ n k. pop_all-Accounted ready (e ∷ pending) seen n (a n k)) later in
          subst
            (λ o.
              InOrder known seen o
              × ((n : String) → has known n ≡ true → member (started o seen) n ≡ true))
            joined
            (
              InOrder-append known seen ready rest
                  (sorted_by_name-All (Startable known seen)
                    (ready_among (e ∷ pending) (e ∷ pending))
                    (ready_among-Startable known (e ∷ pending) seen (e ∷ pending) a))
                  in_order,
              (λ n k. rw (started-append ready rest seen) (complete n k)),
            )
    ]

-- If the services are ordered without an error, each comes after the services it depends on, and every
-- service is in the order.
pub ordered_services-InOrder :
    (services out : List Service)
    → ordered_services services ≡ ok out
    → InOrder (by_name services []) [] out
      × All (λ e. member (started out []) e.0 ≡ true) (by_name services [])
unfolding ordered_services
ordered_services-InOrder services out h =
    let known = by_name services [] in
    let (in_order, complete) = order-InOrder known (length known) known [] (λ n k. inr k) h in
    (
      in_order,
      All-map (λ e. has known e.0 ≡ true) (λ e. member (started out []) e.0 ≡ true) known
          (λ e k. complete e.0 k) (listed known),
    )
