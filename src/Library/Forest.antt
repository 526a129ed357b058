-- ===== src/Library/Forest.antt =====
-- library.py, `_resolve_views`: nodes that are resolved are a forest of folders.
use plug_and_play_local_rag.Base.{
  ℕ, zero, suc, ◌≡◌, refl, sym, ap, ◌∙◌, subst, inl, inr, String, List, [], ◌∷◌, ◌++◌, not, Option,
  none, some, ltb, Bool-cases, str_eq, str_eq_iff, length, All, Result, ok, err, raise_if,
  >>=-eq-ok, ok-injective, Dict, get, put, has, member, true, arith, Option-cases,
}
use plug_and_play_local_rag.Library.{
  Kind, folder, LibraryNode, LibraryError, Resolved, lookup_key, is_folder, is_no_folder,
  records_of, below_parent, resolve_node, resolve_id, resolve_all, resolve_views, max_library_depth,
  max_library_nodes,
}
use plug_and_play_local_rag.Library.Covering.{resolve_all-Reaches}

-- The folders on the way from a root of the library to a node, in this order.
pub data Ancestors (records : Dict LibraryNode) : String → List String → Type 0 where
  root :
      (k : String) (n : LibraryNode)
      → get records k ≡ some n
      → n.parent_id ≡ none
      → Ancestors records k []
  under :
      (k p : String) (n m : LibraryNode) (c : List String)
      → get records k ≡ some n
      → n.parent_id ≡ some p
      → get records p ≡ some m
      → m.kind ≡ folder
      → Ancestors records p c
      → Ancestors records k (c ++ p ∷ [])

put-All :
    {V : Type 0} (P : String → V → Type 0) (d : Dict V) (k : String) (v : V)
    → All (λ e. P e.0 e.1) d
    → P k v
    → All (λ e. P e.0 e.1) (put d k v)
unfolding put
put-All P [] k v h p = (p, tt)
put-All P ((j, w) ∷ d) k v h p = elim (Bool-cases (str_eq j k)) [
  | inl same ↦ rw same (subst (λ x. P x v) (sym ((str_eq_iff j k).0 same)) p, h.1)
  | inr other ↦ rw other (h.0, put-All P d k v h.1 p)
]

All-get :
    {V : Type 0} (P : String → V → Type 0) (d : Dict V) (k : String) {v : V}
    → All (λ e. P e.0 e.1) d
    → get d k ≡ some v
    → P k v
unfolding get
All-get P [] k h e = cc
All-get P ((j, w) ∷ d) k {v} h e = elim (Bool-cases (str_eq j k)) [
  | inl same ↦
      let hit : some w ≡ some v = sym (rw same refl) ∙ e in
      let value : w ≡ v = cc in
      subst (λ x. P x v) ((str_eq_iff j k).0 same) (subst (λ x. P j x) value h.0)
  | inr other ↦ All-get P d k h.1 (sym (rw other refl) ∙ e)
]

lookup_key-some : {V : Type 0} (o : Option V) {v : V} → lookup_key o ≡ ok v → o ≡ some v
lookup_key-some none h = cc
lookup_key-some (some v) h = ap some (ok-injective h)

folder-found :
    (o : Option LibraryNode)
    → raise_if (is_no_folder o) LibraryError.corruption ≡ ok tt
    → (m : LibraryNode) × (o ≡ some m) × (m.kind ≡ folder)
folder-found none h = cc
folder-found (some m) h = (m, refl, kind_of m.kind h)
  where
    kind_of : (k : Kind) → raise_if (not (is_folder k)) LibraryError.corruption ≡ ok tt → k ≡ folder
    kind_of Kind.folder g = refl
    kind_of Kind.file g = cc

-- Every chain is the way from a root.
abbrev pub IsForest : Dict LibraryNode → Resolved → Type 0
IsForest records r = All (λ e. Ancestors records e.0 e.1) r.chains

resolve_node-IsForest :
    (records : Dict LibraryNode) (r : Resolved) (k : String)
    (above : String → Result LibraryError Resolved) (n : LibraryNode) (parent : Option String)
    {out : Resolved}
    → get records k ≡ some n
    → n.parent_id ≡ parent
    → IsForest records r
    → ((p : String) (s : Resolved) → above p ≡ ok s → IsForest records s)
    → resolve_node records r k above n parent ≡ ok out
    → IsForest records out
unfolding resolve_node below_parent
resolve_node-IsForest records r k above n none found parent f up h =
    subst (IsForest records) (ok-injective h)
      (put-All (Ancestors records) r.chains k [] f (root k n found parent))
resolve_node-IsForest records r k above n (some p) found parent f up h =
    let (u, is_parent, h1) =
      >>=-eq-ok (raise_if (is_no_folder (get records p)) LibraryError.corruption) _ h in
    let (s, resolved, h2) = >>=-eq-ok (above p) _ h1 in
    let (view, viewed, h3) = >>=-eq-ok (lookup_key (get s.views p)) _ h2 in
    let (c, chained, h4) = >>=-eq-ok (lookup_key (get s.chains p)) _ h3 in
    let (m, there, kind) = folder-found (get records p) is_parent in
    let forest = up p s resolved in
    let way =
      All-get (Ancestors records) s.chains p forest (lookup_key-some (get s.chains p) chained) in
    subst (IsForest records) (ok-injective h4) (
      put-All (Ancestors records) s.chains k (c ++ p ∷ []) forest
        (under k p n m c found parent there kind way))

resolve_id-IsForest :
    (room : ℕ) (records : Dict LibraryNode) (r : Resolved) (k : String) (stack : List String)
    {out : Resolved}
    → IsForest records r
    → resolve_id room records r k stack ≡ ok out
    → IsForest records out
unfolding resolve_id
resolve_id-IsForest zero records r k stack f h = elim (Bool-cases (has r.views k)) [
  | inl seen ↦ subst (IsForest records) (ok-injective (rw seen at h)) f
  | inr new ↦ absurd (let bad : err LibraryError.corruption ≡ ok _ = (rw new at h) in cc)
]
resolve_id-IsForest (suc room) records r k stack f h = elim (Bool-cases (has r.views k)) [
  | inl seen ↦ subst (IsForest records) (ok-injective (rw seen at h)) f
  | inr new ↦
      let (u, acyclic, h1) =
        >>=-eq-ok (raise_if (member stack k) LibraryError.corruption) _ (rw new at h) in
      let (n, found, h2) = >>=-eq-ok (lookup_key (get records k)) _ h1 in
      resolve_node-IsForest records r k (λ p. resolve_id room records r p (k ∷ stack)) n n.parent_id
        (lookup_key-some (get records k) found) refl f
        (λ p s g. resolve_id-IsForest room records r p (k ∷ stack) f g) h2
]

resolve_all-IsForest :
    (records d : Dict LibraryNode) (r : Resolved) {out : Resolved}
    → IsForest records r
    → resolve_all records d r ≡ ok out
    → IsForest records out
unfolding resolve_all
resolve_all-IsForest records [] r f h = subst (IsForest records) (ok-injective h) f
resolve_all-IsForest records ((k, n) ∷ d) r f h =
    let (s, resolved, rest) = >>=-eq-ok (resolve_id max_library_depth records r k []) _ h in
    resolve_all-IsForest records d s
      (resolve_id-IsForest max_library_depth records r k [] f resolved) rest

-- If the nodes of a library resolve, every node has a view, and its chain is stored and is the way of
-- folders from a root of the library to the node along the parents; so no node is on a cycle.
pub resolve_views-IsForest :
    (nodes : List LibraryNode) (r : Resolved) (k : String) (n : LibraryNode)
    → resolve_views nodes ≡ ok r
    → get (records_of nodes []) k ≡ some n
    → (has r.views k ≡ true)
      × ((c : List String) × (get r.chains k ≡ some c) × Ancestors (records_of nodes []) k c)
unfolding resolve_views get
resolve_views-IsForest nodes r k n h listed =
    let (u, small, rest) =
      >>=-eq-ok (raise_if (ltb max_library_nodes (length nodes)) LibraryError.corruption) _ h in
    let start : Resolved = record { views = []; chains = [] } in
    let (viewed, chained) =
      resolve_all-Reaches (records_of nodes []) (records_of nodes []) start k (λ j. refl) rest
        (ground (arith, listed)) in
    let forest = resolve_all-IsForest (records_of nodes []) (records_of nodes []) start tt rest in
    (
      viewed,
      elim (Option-cases (get r.chains k)) [
        | inl missing ↦ absurd (ground (arith, missing, chained))
        | inr (c, found) ↦
            (c, found, All-get (Ancestors (records_of nodes [])) r.chains k forest found)
      ],
    )
