-- ===== src/Library/Covering.antt =====
-- library.py, `_resolve_views`: every node gets a view and a chain.
use plug_and_play_local_rag.Base.{
  ℕ, zero, suc, ◌≡◌, subst, inl, inr, String, List, [], ◌∷◌, ◌++◌, true, Option, none, some, arith,
  Bool-cases, str_eq, str_eq_iff, Result, ok, err, raise_if, >>=-eq-ok, ok-injective, Dict, get,
  put, get-put, has, member, ◌||◌,
}
use plug_and_play_local_rag.Library.{
  LibraryNodeView, LibraryNode, LibraryError, Resolved, new_view, lookup_key, is_no_folder,
  path_names, split_slashes, below_parent, resolve_node, resolve_id, resolve_all, max_library_depth,
}

-- The same nodes have a view and a chain.
abbrev pub IsPaired : Resolved → Type 0
IsPaired r = (j : String) → has r.views j ≡ has r.chains j

-- What is resolved stays so, and a node is added.
pub record Reaches (r : Resolved) (k : String) (s : Resolved) : Type 0 where
  pub paired : IsPaired s
  pub stays : (j : String) → has r.views j ≡ true → has s.views j ≡ true
  pub there : has s.views k ≡ true

has-put :
    {V : Type 0} (d : Dict V) (k j : String) (v : V) → has (put d k v) j ≡ (str_eq k j || has d j)
has-put d k j v = ground (arith, get-put d k j v)

add_view-Reaches :
    (r : Resolved) (k : String) (w : LibraryNodeView) (c : List String)
    → IsPaired r
    → Reaches r k (record { views = put r.views k w; chains = put r.chains k c })
add_view-Reaches r k w c v = record {
  paired = λ j. ground (arith, v j, has-put r.views k j w, has-put r.chains k j c);
  stays = λ j. ground (arith, has-put r.views k j w);
  there = ground (arith, has-put r.views k k w, str_eq_iff k k);
}

resolve_node-Reaches :
    (records : Dict LibraryNode) (r : Resolved) (k : String)
    (above : String → Result LibraryError Resolved) (n : LibraryNode) (parent : Option String)
    {out : Resolved}
    → IsPaired r
    → ((p : String) (s : Resolved) → above p ≡ ok s → Reaches r p s)
    → resolve_node records r k above n parent ≡ ok out
    → Reaches r k out
unfolding resolve_node below_parent
resolve_node-Reaches records r k above n none v up h =
    subst (Reaches r k) (ok-injective h) (add_view-Reaches r k _ [] v)
resolve_node-Reaches records r k above n (some p) v up h =
    let (u, is_parent, h1) =
      >>=-eq-ok (raise_if (is_no_folder (get records p)) LibraryError.corruption) _ h in
    let (s, resolved, h2) = >>=-eq-ok (above p) _ h1 in
    let (view, viewed, h3) = >>=-eq-ok (lookup_key (get s.views p)) _ h2 in
    let (c, chained, h4) = >>=-eq-ok (lookup_key (get s.chains p)) _ h3 in
    let parent = up p s resolved in
    let added =
      add_view-Reaches s k (new_view n (path_names (split_slashes view.logical_path))) (c ++ p ∷ [])
        parent.paired in
    subst (Reaches r k) (ok-injective h4) (record {
      paired = added.paired;
      stays = λ j m. added.stays j (parent.stays j m);
      there = added.there;
    })

resolve_id-Reaches :
    (room : ℕ) (records : Dict LibraryNode) (r : Resolved) (k : String) (stack : List String)
    {out : Resolved}
    → IsPaired r
    → resolve_id room records r k stack ≡ ok out
    → Reaches r k out
unfolding resolve_id
resolve_id-Reaches zero records r k stack v h = elim (Bool-cases (has r.views k)) [
  | inl seen ↦
      subst (Reaches r k) (ok-injective (rw seen at h))
        (record { paired = v; stays = λ j m. m; there = seen })
  | inr new ↦ absurd (let bad : err LibraryError.corruption ≡ ok _ = (rw new at h) in cc)
]
resolve_id-Reaches (suc room) records r k stack v h = elim (Bool-cases (has r.views k)) [
  | inl seen ↦
      subst (Reaches r k) (ok-injective (rw seen at h))
        (record { paired = v; stays = λ j m. m; there = seen })
  | inr new ↦
      let (u, acyclic, h1) =
        >>=-eq-ok (raise_if (member stack k) LibraryError.corruption) _ (rw new at h) in
      let (n, found, h2) = >>=-eq-ok (lookup_key (get records k)) _ h1 in
      resolve_node-Reaches records r k (λ p. resolve_id room records r p (k ∷ stack)) n n.parent_id
        v (λ p s g. resolve_id-Reaches room records r p (k ∷ stack) v g) h2
]

pub resolve_all-Reaches :
    (records d : Dict LibraryNode) (r : Resolved) {out : Resolved} (k : String)
    → IsPaired r
    → resolve_all records d r ≡ ok out
    → (has d k || has r.views k) ≡ true
    → (has out.views k ≡ true) × (has out.chains k ≡ true)
unfolding resolve_all get
resolve_all-Reaches records [] r k v h m =
    let all : has r.views k ≡ true = m in
    subst (λ (s : Resolved). (has s.views k ≡ true) × (has s.chains k ≡ true)) (ok-injective h)
      (all, ground (arith, v k, all))
resolve_all-Reaches records ((j, n) ∷ d) r k v h m =
    let (s, resolved, rest) = >>=-eq-ok (resolve_id max_library_depth records r j []) _ h in
    let reached = resolve_id-Reaches max_library_depth records r j [] v resolved in
    resolve_all-Reaches records d s k reached.paired rest
      (ground (arith, m, str_eq_iff j k, reached.stays k, reached.there))
