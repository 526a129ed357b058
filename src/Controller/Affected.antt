-- ===== src/Controller/Affected.antt =====
-- controller.py, `apply`: which services are affected by a change.
use plug_and_play_local_rag.Base.{
  ◌≡◌, refl, ap, is_some, String, List, [], ◌∷◌, false, not, ◌&&◌, ◌||◌, Option, none, some, arith,
  str_eq, str_eq_iff, inl, inr, Bool-cases, Dict, get, has, member, member-add, add,
}
use plug_and_play_local_rag.Controller.{same_option, keys, insert_sorted, sorted, changed, affected}

member-keys :
    (d : Dict (Dict String)) (s : List String) (t : String)
    → member (keys d s) t ≡ (has d t || member s t)
unfolding get
member-keys [] s t = refl
member-keys ((k, v) ∷ d) s t =
    ground (arith, member-keys d (add s k) t, member-add s k t, str_eq_iff k t)

member-insert_sorted :
    (k : String) (l : List String) (t : String)
    → member (insert_sorted k l) t ≡ (str_eq k t || member l t)
member-insert_sorted k [] t = ground arith
member-insert_sorted k (j ∷ l) t = ground (arith, member-insert_sorted k l t)

member-sorted : (l : List String) (t : String) → member (sorted l) t ≡ member l t
member-sorted [] t = refl
member-sorted (k ∷ l) t = ground (arith, member-insert_sorted k (sorted l) t, member-sorted l t)

member-changed :
    (desired prior : Dict (Dict String)) (l : List String) (t : String)
    → member (changed desired prior l) t
      ≡ (member l t && not (same_option (get desired t) (get prior t)))
member-changed desired prior [] t = refl
member-changed desired prior (s ∷ l) t = elim (Bool-cases (str_eq s t)) [
  | inl here ↦
      let same = ap (λ x. same_option (get desired x) (get prior x)) ((str_eq_iff s t).0 here) in
      ground (arith, here, same, member-changed desired prior l t)
  | inr other ↦ ground (arith, other, member-changed desired prior l t)
]

-- A service without values on both sides has the same value, none.
given_or_same :
    (a b : Option (Dict String))
    → ((is_some b || is_some a || false) && not (same_option a b)) ≡ not (same_option a b)
given_or_same none none = refl
given_or_same none (some b) = refl
given_or_same (some a) none = refl
given_or_same (some a) (some b) = refl

-- A service is affected exactly if the two configurations give it different values, or only one of
-- them gives it values.
pub member-affected :
    (desired prior : Dict (Dict String)) (t : String)
    → member (affected desired prior) t ≡ not (same_option (get desired t) (get prior t))
unfolding affected
member-affected desired prior t =
    let services = keys prior (keys desired []) in
    ground (
      arith,
      member-sorted (changed desired prior services) t,
      member-changed desired prior services t,
      member-keys prior (keys desired []) t,
      member-keys desired [] t,
      given_or_same (get desired t) (get prior t),
    )
