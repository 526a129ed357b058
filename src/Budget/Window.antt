-- ===== src/Budget/Window.antt =====
-- runtime.py, `RestartBudget`: no more restarts in a window than the policy allows.
use plug_and_play_local_rag.Base.{
  ℕ, suc, ◌+◌, ◌≤◌, ◌<◌, ◌≡◌, refl, inl, inr, List, [], ◌∷◌, ◌++◌, arith, leb, Bool-cases,
  if◌then◌else◌, length, length-append,
}
use plug_and_play_local_rag.Budget.{RestartPolicy, expire, decide, record_failure, restarts}

-- How many of the times lie less than a window before `now`.
unfoldable pub in_window : ℕ → ℕ → List ℕ → ℕ
in_window window now [] = 0
in_window window now (a ∷ l) =
    let rest = in_window window now l in if leb (a + window) now then rest else suc rest

-- The times go up, from `from` on, and none is after `now`.
abbrev pub Ascending : ℕ → List ℕ → ℕ → Type 0
Ascending from [] now = from ≤ now
Ascending from (t ∷ times) now = (from ≤ t) × Ascending t times now

Ascending-le : (from : ℕ) (times : List ℕ) (now : ℕ) → Ascending from times now → from ≤ now
Ascending-le from [] now h = h
Ascending-le from (t ∷ times) now h = omega (arith, h.0, Ascending-le t times now h.1)

in_window-append :
    (w now : ℕ) (l m : List ℕ) → in_window w now (l ++ m) ≡ in_window w now l + in_window w now m
unfolding in_window
in_window-append w now [] m = omega arith
in_window-append w now (a ∷ l) m = ground (arith, in_window-append w now l m)

in_window-length : (w now : ℕ) (l : List ℕ) → in_window w now l ≤ length l
unfolding in_window
in_window-length w now [] = omega arith
in_window-length w now (a ∷ l) = ground (arith, in_window-length w now l)

-- What has expired is in no later window.
in_window-expire :
    (w now later : ℕ) (l : List ℕ)
    → now ≤ later
    → in_window w later (expire w now l) ≡ in_window w later l
unfolding in_window expire
in_window-expire w now later [] h = refl
in_window-expire w now later (a ∷ l) h = ground (arith, in_window-expire w now later l h)

length-expire : (w now : ℕ) (l : List ℕ) → length (expire w now l) ≤ length l
unfolding expire
length-expire w now [] = omega arith
length-expire w now (a ∷ l) = ground (arith, length-expire w now l)

-- Deciding adds the time to the attempts exactly when it allows a restart, and never exceeds the limit.
decide-fit :
    (policy : RestartPolicy) (attempts : List ℕ) (t w now : ℕ)
    → length attempts ≤ policy.maximum_restarts
    → (length (decide policy attempts t).1 ≤ policy.maximum_restarts)
      × ((later : List ℕ)
          → in_window w now attempts
              + in_window w now (if (decide policy attempts t).0.allowed then t ∷ later else later)
            ≡ in_window w now (decide policy attempts t).1 + in_window w now later)
unfolding decide
decide-fit policy attempts t w now l =
    elim (Bool-cases (leb policy.maximum_restarts (length attempts))) [
      | inl full ↦ rw full (l, (λ later. refl))
      | inr room ↦ rw room (
        (let short : length attempts < policy.maximum_restarts = ground arith in
            omega (arith, length-append attempts (t ∷ []))),
        (λ later. append_one later),
      )
    ]
  where
    append_one :
        (later : List ℕ)
        → in_window w now attempts + in_window w now (t ∷ later)
          ≡ in_window w now (attempts ++ t ∷ []) + in_window w now later
    append_one later = unfold in_window in ground (arith, in_window-append w now attempts (t ∷ []))

-- The restarts still to be granted, and the attempts remembered, fit the window together.
restarts-fit :
    (policy : RestartPolicy) (attempts : List ℕ) (from : ℕ) (times : List ℕ) (now : ℕ)
    → length attempts ≤ policy.maximum_restarts
    → Ascending from times now
    → in_window policy.window_seconds now attempts
        + in_window policy.window_seconds now (restarts policy attempts times)
      ≤ policy.maximum_restarts
unfolding restarts record_failure
restarts-fit policy attempts from [] now l h =
    unfold in_window in omega (arith, in_window-length policy.window_seconds now attempts)
restarts-fit policy attempts from (t ∷ times) now l h =
    let kept = expire policy.window_seconds t attempts in
    let (short, counted) =
      decide-fit policy kept t policy.window_seconds now
        (omega (arith, length-expire policy.window_seconds t attempts)) in
    let rest = restarts policy (decide policy kept t).1 times in
    omega (
      arith,
      restarts-fit policy (decide policy kept t).1 t times now short h.1,
      counted rest,
      in_window-expire policy.window_seconds t now attempts (Ascending-le t times now h.1),
    )

-- Whenever failures are recorded at times that go up, the restarts granted within the policy's window
-- before any later time are at most as many as the policy allows.
pub restarts-bounded :
    (policy : RestartPolicy) (times : List ℕ) (now : ℕ)
    → Ascending 0 times now
    → in_window policy.window_seconds now (restarts policy [] times) ≤ policy.maximum_restarts
restarts-bounded policy times now h =
    omega (arith, restarts-fit policy [] 0 times now (omega arith) h)
