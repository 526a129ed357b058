-- ===== src/Stopping/Tracking.antt =====
-- runtime.py, `_stop_cascade`: no process is lost.
use plug_and_play_local_rag.Base.{
  ℕ, zero, suc, ◌≡◌, refl, sym, ap, ◌∙◌, subst, ◌⊎◌, inl, inr, String, List, [], ◌∷◌, ◌++◌, Bool,
  true, false, ◌||◌, Option, none, some, arith, Bool-cases, str_eq, str_eq_iff, All, ok, >>=-eq-ok,
  ok-injective, Dict, get, has, get-remove, member,
}
use plug_and_play_local_rag.Stopping.{
  Reply, returned, Adapter, ProcessError, Cascade, confirm, await_end, after_terminate, after_poll,
  close_of, after_pass, passes, terminate_and_close, keep, stop_process, stop_all, reversed_names,
  stop_cascade,
}
use plug_and_play_local_rag.Services.{Service, by_name, ordered_services}
use plug_and_play_local_rag.Services.Ordering.{started, ordered_services-InOrder}

-- What the supervisor relies on: an exit code is only there when the process has exited, and a
-- process that has exited stays so, whatever is called.
pub record IsReliable {W P : Type 0} (adapter : Adapter W P) (exited : W → P → Type 0)
    : Type 0 where
  pub poll_true :
      (w : W) (p : P) → (adapter.poll w p).1 ≡ returned true → exited (adapter.poll w p).0 p
  pub poll_keeps : (w : W) (p q : P) → exited w q → exited (adapter.poll w p).0 q
  pub terminate_keeps : (w : W) (p q : P) → exited w q → exited (adapter.terminate w p).0 q
  pub wait_keeps : (w : W) (p q : P) → exited w q → exited (adapter.wait w p).0 q
  pub close_keeps : (w : W) (p q : P) → exited w q → exited (adapter.close_process w p).0 q

All-has :
    {V : Type 0} (names : List String) (d : Dict V) (k : String)
    → All (λ e. member names e.0 ≡ true) d
    → has d k ≡ true
    → member names k ≡ true
unfolding get
All-has names [] k h m = cc
All-has names ((j, v) ∷ d) k h m = elim (Bool-cases (str_eq j k)) [
  | inl same ↦ subst (λ x. member names x ≡ true) ((str_eq_iff j k).0 same) h.0
  | inr other ↦ All-has names d k h.1 (sym (rw other refl) ∙ m)
]

member-append : (a b : List String) (k : String) → member (a ++ b) k ≡ (member a k || member b k)
member-append [] b k = refl
member-append (x ∷ a) b k = ground (arith, member-append a b k)

-- The reverse of the order names what has started.
member-started :
    (l : List Service) (seen : List String) (k : String)
    → member (started l seen) k ≡ (member (reversed_names l) k || member seen k)
member-started [] seen k = refl
member-started (s ∷ l) seen k =
    ground
      (arith, member-started l (s.name ∷ seen) k, member-append (reversed_names l) (s.name ∷ []) k)

module _ {W P : Type 0} (adapter : Adapter W P) (exited : W → P → Type 0)
    (law : IsReliable adapter exited) where
  abbrev pub Listed : P → List P → Type 0
  Listed p [] = ⊥
  Listed p (q ∷ l) = (p ≡ q) ⊎ Listed p l

  Listed-append : (p : P) (l m : List P) → Listed p l → Listed p (l ++ m)
  Listed-append p [] m h = absurd h
  Listed-append p (q ∷ l) m (inl e) = inl e
  Listed-append p (q ∷ l) m (inr h) = inr (Listed-append p l m h)

  Listed-last : (p : P) (l : List P) → Listed p (l ++ p ∷ [])
  Listed-last p [] = inl refl
  Listed-last p (q ∷ l) = inr (Listed-last p l)

  confirm-keeps : (r : W × Reply Bool) (q : P) → exited r.0 q → exited (confirm adapter r).0 q
  confirm-keeps (w, Reply.returned true) q h = h
  confirm-keeps (w, Reply.returned false) q h = h
  confirm-keeps (w, Reply.raised) q h = h

  await_end-keeps :
      (p : P) (r : W × Reply Bool) (q : P) → exited r.0 q → exited (await_end adapter p r).0 q
  await_end-keeps p (w, Reply.returned true) q h =
      confirm-keeps (adapter.poll w p) q (law.poll_keeps w p q h)
  await_end-keeps p (w, Reply.returned false) q h = h
  await_end-keeps p (w, Reply.raised) q h = h

  after_terminate-keeps :
      (p : P) (r : W × Reply Unit) (q : P) → exited r.0 q → exited (after_terminate adapter p r).0 q
  after_terminate-keeps p (w, Reply.returned u) q h =
      await_end-keeps p (adapter.wait w p) q (law.wait_keeps w p q h)
  after_terminate-keeps p (w, Reply.raised) q h = h

  after_poll-keeps :
      (p : P) (r : W × Reply Bool) (q : P) → exited r.0 q → exited (after_poll adapter p r).0 q
  after_poll-keeps p (w, Reply.returned true) q h = h
  after_poll-keeps p (w, Reply.returned false) q h =
      after_terminate-keeps p (adapter.terminate w p) q (law.terminate_keeps w p q h)
  after_poll-keeps p (w, Reply.raised) q h =
      after_terminate-keeps p (adapter.terminate w p) q (law.terminate_keeps w p q h)

  close_of-keeps : (r : W × Reply Unit) (q : P) → exited r.0 q → exited (close_of adapter r).0 q
  close_of-keeps (w, Reply.returned u) q h = h
  close_of-keeps (w, Reply.raised) q h = h

  passes-keeps :
      (n : ℕ) (last : Option ProcessError) (p : P) (w : W) (q : P)
      → exited w q
      → exited (passes adapter n last p w).0 q
  unfolding passes
  passes-keeps zero last p w q h = h
  passes-keeps (suc n) last p w q h =
      next_pass (λ e v k. passes-keeps n (some e) p v q k) (after_poll adapter p (adapter.poll w p))
        (after_poll-keeps p (adapter.poll w p) q (law.poll_keeps w p q h))
    where
      next_pass :
          ((e : ProcessError) (v : W) → exited v q → exited (passes adapter n (some e) p v).0 q)
          → (a : W × Option ProcessError) → exited a.0 q
          → exited
              (after_pass adapter a
                (λ v. close_of adapter (adapter.close_process v p))
                (λ e v. passes adapter n (some e) p v)).0
              q
      next_pass ih (v, none) k =
          close_of-keeps (adapter.close_process v p) q (law.close_keeps v p q k)
      next_pass ih (v, some e) k = ih e v k

  -- A pass without an error has seen the process exited.
  confirm-exited :
      (w : W) (p : P) (r : W × Reply Bool)
      → (r.1 ≡ returned true → exited r.0 p)
      → (confirm adapter r).1 ≡ none
      → exited (confirm adapter r).0 p
  confirm-exited w p (v, Reply.returned true) k h = k refl
  confirm-exited w p (v, Reply.returned false) k h = cc
  confirm-exited w p (v, Reply.raised) k h = cc

  await_end-exited :
      (p : P) (r : W × Reply Bool)
      → (await_end adapter p r).1 ≡ none
      → exited (await_end adapter p r).0 p
  await_end-exited p (w, Reply.returned true) h =
      confirm-exited w p (adapter.poll w p) (law.poll_true w p) h
  await_end-exited p (w, Reply.returned false) h = cc
  await_end-exited p (w, Reply.raised) h = cc

  after_terminate-exited :
      (p : P) (r : W × Reply Unit)
      → (after_terminate adapter p r).1 ≡ none
      → exited (after_terminate adapter p r).0 p
  after_terminate-exited p (w, Reply.returned u) h = await_end-exited p (adapter.wait w p) h
  after_terminate-exited p (w, Reply.raised) h = cc

  after_poll-exited :
      (p : P) (r : W × Reply Bool)
      → (r.1 ≡ returned true → exited r.0 p)
      → (after_poll adapter p r).1 ≡ none
      → exited (after_poll adapter p r).0 p
  after_poll-exited p (w, Reply.returned true) k h = k refl
  after_poll-exited p (w, Reply.returned false) k h =
      after_terminate-exited p (adapter.terminate w p) h
  after_poll-exited p (w, Reply.raised) k h = after_terminate-exited p (adapter.terminate w p) h

  passes-exited :
      (n : ℕ) (last : Option ProcessError) (p : P) (w : W)
      → (passes adapter n last p w).1 ≡ none
      → exited (passes adapter n last p w).0 p
  unfolding passes
  passes-exited zero last p w h = cc
  passes-exited (suc n) last p w h =
      next_pass (λ e v g. passes-exited n (some e) p v g) (after_poll adapter p (adapter.poll w p))
        (after_poll-exited p (adapter.poll w p) (law.poll_true w p)) h
    where
      next_pass :
          ((e : ProcessError) (v : W)
            → (passes adapter n (some e) p v).1 ≡ none
            → exited (passes adapter n (some e) p v).0 p)
          → (a : W × Option ProcessError) → (a.1 ≡ none → exited a.0 p)
          → (after_pass adapter a
              (λ v. close_of adapter (adapter.close_process v p))
              (λ e v. passes adapter n (some e) p v)).1
            ≡ none
          → exited
              (after_pass adapter a
                (λ v. close_of adapter (adapter.close_process v p))
                (λ e v. passes adapter n (some e) p v)).0
              p
      next_pass ih (v, none) k g =
          close_of-keeps (adapter.close_process v p) p (law.close_keeps v p p (k refl))
      next_pass ih (v, some e) k g = ih e v g

  -- The process has exited, or is kept.
  abbrev pub Tracked : P → Cascade W P → Type 0
  Tracked p s = exited s.host p ⊎ Listed p s.retained

  stop_process-Tracked :
      (name : String) (o : Option P) (s : Cascade W P) (q : P)
      → Tracked q s ⊎ (o ≡ some q)
      → Tracked q (stop_process adapter name o s)
  unfolding terminate_and_close
  stop_process-Tracked name none s q (inl t) = t
  stop_process-Tracked name none s q (inr e) = cc
  stop_process-Tracked name (some p) s q (inl (inl h)) = inl (passes-keeps 3 none p s.host q h)
  stop_process-Tracked name (some p) s q (inl (inr h)) =
      inr (kept (passes adapter 3 none p s.host).1)
    where
      kept : (e : Option ProcessError) → Listed q (keep adapter p e s.retained)
      kept none = h
      kept (some e) = Listed-append q s.retained (p ∷ []) h
  stop_process-Tracked name (some p) s q (inr e) =
      subst (λ x. Tracked x (stop_process adapter name (some p) s)) p_is_q
        (settled (passes adapter 3 none p s.host) refl)
    where
      p_is_q : p ≡ q
      p_is_q = cc

      settled :
          (r : W × Option ProcessError)
          → passes adapter 3 none p s.host ≡ r
          → Tracked p (stop_process adapter name (some p) s)
      settled (w, none) g = inl (passes-exited 3 none p s.host (ap (λ x. x.1) g))
      settled (w, some error) g = inr (
          subst (λ x. Listed p (keep adapter p x s.retained)) (sym (ap (λ x. x.1) g))
            (Listed-last p s.retained))

  processes-stop_process :
      (name other : String) (o : Option P) (s : Cascade W P)
      → str_eq name other ≡ false
      → get (stop_process adapter name o s).processes other ≡ get s.processes other
  processes-stop_process name other none s h = refl
  processes-stop_process name other (some p) s h = get-remove s.processes name other ∙ rw h refl

  stop_all-Tracked :
      (names : List String) (s : Cascade W P) (q : P) (name : String)
      → Tracked q s ⊎ ((member names name ≡ true) × (get s.processes name ≡ some q))
      → Tracked q (stop_all adapter names s)
  unfolding stop_all
  stop_all-Tracked [] s q name (inl t) = t
  stop_all-Tracked [] s q name (inr (m, g)) = cc
  stop_all-Tracked (n ∷ names) s q name (inl t) =
      stop_all-Tracked names (stop_process adapter n (get s.processes n) s) q name
        (inl (stop_process-Tracked n (get s.processes n) s q (inl t)))
  stop_all-Tracked (n ∷ names) s q name (inr (m, g)) = elim (Bool-cases (str_eq n name)) [
    | inl same ↦
        let here : n ≡ name = (str_eq_iff n name).0 same in
        stop_all-Tracked names (stop_process adapter n (get s.processes n) s) q name (
          inl (
            stop_process-Tracked n (get s.processes n) s q
              (inr (ap (λ x. get s.processes x) here ∙ g))))
    | inr other ↦
        stop_all-Tracked names (stop_process adapter n (get s.processes n) s) q name
          (inr (ground arith, processes-stop_process n name (get s.processes n) s other ∙ g))
  ]

  -- When a stop cascade returns, each process that a service had has exited, or is kept among the
  -- retained processes.
  pub stop_cascade-Tracked :
      (services : List Service) (s out : Cascade W P) (name : String) (p : P)
      → stop_cascade adapter services s ≡ ok out
      → has (by_name services []) name ≡ true
      → get s.processes name ≡ some p
      → exited out.host p ⊎ Listed p out.retained
  unfolding stop_cascade
  stop_cascade-Tracked services s out name p h known g =
      let (l, ordered, stopped) = >>=-eq-ok (ordered_services services) _ h in
      let (in_order, complete) = ordered_services-InOrder services l ordered in
      let there : member (started l []) name ≡ true =
        All-has (started l []) (by_name services []) name complete known in
      subst (Tracked p) (ok-injective stopped) (
        stop_all-Tracked (reversed_names l) (record s { last_error = none }) p name
          (inr ((let order = member-started l [] name in ground arith), g)))
