-- ===== src/Limits/Bounds.antt =====
-- limits.py: tasks that enter and leave stages in any order.
use plug_and_play_local_rag.Base.{
  ℕ, suc, ◌+◌, ◌≤◌, ◌<◌, ◌≡◌, refl, ap, ◌∙◌, subst, ◌↔◌, List, [], ◌∷◌, Bool, true, false, not,
  some, arith, ◌==◌, if◌then◌else◌, any, all, Result, ok, err, raise_if, >>=-eq-ok, is_some,
}
use plug_and_play_local_rag.Limits.{
  Stage, Stage-discrete, stage_eq, Slot, StageLimits, LimitsError, stages_not_covered,
  limit_not_positive, new_limits, update, enter, leave, or_one, limit_of, all_stages,
}

ok_injective : {s t : StageLimits} → ◌≡◌ {A = Result LimitsError StageLimits} (ok s) (ok t) → s ≡ t
ok_injective {s} p = ap (λ r. elim r [ ok u ↦ u | err e ↦ s ]) p

-- The limits and the stages that tasks are in, one element for each task.
pub record Runtime : Type 0 where
  pub limits : StageLimits
  pub inside : List Stage

pub data Event : Type 0 where
  enters leaves : Stage → Event

unfoldable pub count_stage : Stage → List Stage → ℕ
count_stage a [] = 0
count_stage a (b ∷ l) = if stage_eq b a then suc (count_stage a l) else count_stage a l

unfoldable pub drop_stage : Stage → List Stage → List Stage
drop_stage a [] = []
drop_stage a (b ∷ l) = let rest = drop_stage a l in if stage_eq b a then l else b ∷ rest

abbrev pub entered : Stage → Runtime → Bool × StageLimits → Runtime
entered stage r (true, s) = record { limits = s; inside = stage ∷ r.inside }
entered stage r (false, s) = record r { limits = s }

-- A task leaves a stage only if one is inside it.
unfoldable pub handle : Runtime → Event → Runtime
handle r (enters stage) = entered stage r (enter r.limits stage)
handle r (leaves stage) =
    if count_stage stage r.inside == 0
    then r
    else record { limits = leave r.limits stage; inside = drop_stage stage r.inside }

unfoldable pub serve : Runtime → List Event → Runtime
serve r [] = r
serve r (e ∷ es) = serve (handle r e) es

-- Of each stage: the permits that are out are the tasks inside, and `active` counts them.
pub record IsBalanced (s : Slot) (n : ℕ) : Type 0 where
  pub shared : s.permits + s.active ≡ s.limit
  pub counted : s.active ≡ n

abbrev pub AllBalanced : Runtime → Type 0
AllBalanced r = (a : Stage) → IsBalanced (r.limits a) (count_stage a r.inside)

stage_eq_iff : (a b : Stage) → (stage_eq a b ≡ true) ↔ (a ≡ b)
stage_eq_iff a b =
    elim (Stage-discrete a b) as (λ d. (elim d [ yes p ↦ true | no p ↦ false ] ≡ true) ↔ (a ≡ b)) [
      | yes p ↦ ((λ h. p), (λ h. refl))
      | no p ↦ ((λ h. cc), (λ h. absurd (p h)))
    ]

count_stage-drop_stage :
    (a b : Stage) (l : List Stage)
    → 0 < count_stage a l
    → count_stage b (drop_stage a l) + (if stage_eq a b then 1 else 0) ≡ count_stage b l
unfolding count_stage drop_stage
count_stage-drop_stage a b [] h = absurd (omega arith)
count_stage-drop_stage a b (c ∷ l) h =
    ground
      (arith, stage_eq_iff a b, stage_eq_iff c a, stage_eq_iff c b, count_stage-drop_stage a b l)

handle-AllBalanced : (r : Runtime) (e : Event) → AllBalanced r → AllBalanced (handle r e)
unfolding handle enter leave update count_stage
handle-AllBalanced r (enters a) h b = ground (arith, h b, h a, stage_eq_iff a b)
handle-AllBalanced r (leaves a) h b =
    ground (arith, h b, h a, stage_eq_iff a b, count_stage-drop_stage a b r.inside)

serve-AllBalanced : (r : Runtime) (es : List Event) → AllBalanced r → AllBalanced (serve r es)
unfolding serve
serve-AllBalanced r [] h = h
serve-AllBalanced r (e ∷ es) h = serve-AllBalanced (handle r e) es (handle-AllBalanced r e h)

limit-handle :
    (r : Runtime) (e : Event) (a : Stage) → ((handle r e).limits a).limit ≡ (r.limits a).limit
unfolding handle enter leave update
limit-handle r (enters b) a = ground (arith, stage_eq_iff b a)
limit-handle r (leaves b) a = ground (arith, stage_eq_iff b a)

limit-serve :
    (r : Runtime) (es : List Event) (a : Stage) → ((serve r es).limits a).limit ≡ (r.limits a).limit
unfolding serve
limit-serve r [] a = refl
limit-serve r (e ∷ es) a = limit-serve (handle r e) es a ∙ limit-handle r e a

covered :
    (configured : List (Stage × ℕ)) (a : Stage)
    → all (λ stage. is_some (limit_of configured stage)) all_stages ≡ true
    → some (or_one (limit_of configured a)) ≡ limit_of configured a
covered configured Stage.digital_io h = ground arith
covered configured a h = ground arith

new_limits-fresh :
    (configured : List (Stage × ℕ)) {s : StageLimits} (a : Stage)
    → new_limits configured ≡ ok s
    → (some (s a).limit ≡ limit_of configured a) × IsBalanced (s a) 0
unfolding new_limits
new_limits-fresh configured {s} a h =
    let (u, covers, rest) =
      >>=-eq-ok
        (raise_if (not (all (λ stage. is_some (limit_of configured stage)) all_stages))
          stages_not_covered)
        _ h in
    let (w, positive, same) =
      >>=-eq-ok (raise_if (any (λ (entry : Stage × ℕ). entry.1 == 0) configured) limit_not_positive)
        _ rest in
    subst (λ (t : StageLimits). (some (t a).limit ≡ limit_of configured a) × IsBalanced (t a) 0)
      (ok_injective same) (covered configured a (ground arith), omega arith)

-- With limits that the constructor accepts, after any events, the tasks inside a stage are as many
-- as its `active` count, and never more than the limit that was configured for it.
pub stage_bounded :
    (configured : List (Stage × ℕ)) {s : StageLimits}
    → new_limits configured ≡ ok s
    → (es : List Event) (a : Stage)
    → let r = serve (record { limits = s; inside = [] }) es in
      ((r.limits a).active ≡ count_stage a r.inside)
      × (some (r.limits a).limit ≡ limit_of configured a)
      × (count_stage a r.inside ≤ (r.limits a).limit)
stage_bounded configured {s} h es a =
    let start : Runtime = record { limits = s; inside = [] } in
    let fresh : AllBalanced start =
      λ b. unfold count_stage in (new_limits-fresh configured b h).1 in
    let end = serve-AllBalanced start es fresh a in
    let kept = limit-serve start es a in
    (
      end.counted,
      ap some kept ∙ (new_limits-fresh configured a h).0,
      omega (arith, end.shared, end.counted),
    )
