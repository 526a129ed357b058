-- ===== src/Library.antt =====
-- apps/api/app/services/library.py: the check that the nodes of the document library are a forest, and
-- the checks of an insertion and of a move. A node's document and uploader are not modelled.
pub mod Covering
pub mod Forest
use plug_and_play_local_rag.Base.{
  ℕ, zero, suc, ◌+◌, ◌-◌, max, String, List, [], ◌∷◌, ◌++◌, Bool, true, false, not, ◌||◌, Option,
  none, some, ltb, leb, ◌==◌, str_eq, if◌then◌else◌, length, is_empty, Result, ok, err, ◌>>=◌, ◌>>◌,
  raise_if, Dict, get, put, has, member,
}
use plug_and_play_local_rag.Tokens.{Text, join}
use plug_and_play_local_rag.Units.{cons_piece}

pub data Kind : Type 0 where
  folder file : Kind

pub record LibraryNode : Type 0 where
  pub id : String
  pub parent_id : Option String
  pub kind : Kind
  pub name : Text

pub record LibraryNodeView : Type 0 where
  pub node : LibraryNode
  pub logical_path : Text

-- `missing_key` is the KeyError of a dictionary.
pub data LibraryError : Type 0 where
  corruption not_found not_folder cycle conflict missing_key : LibraryError

-- The dictionaries `views` and `chains`.
pub record Resolved : Type 0 where
  pub views : Dict LibraryNodeView
  pub chains : Dict (List String)

abbrev pub max_library_nodes : ℕ
max_library_nodes = 10000

abbrev pub max_library_depth : ℕ
max_library_depth = 256

-- d[k]
abbrev pub lookup_key : {V : Type 0} → Option V → Result LibraryError V
lookup_key none = err missing_key
lookup_key (some v) = ok v

abbrev pub is_folder : Kind → Bool
is_folder folder = true
is_folder file = false

-- path.split("/")
abbrev pub split_slashes : Text → List Text
split_slashes [] = [] ∷ []
split_slashes (c ∷ s) = if c == 47 then [] ∷ split_slashes s else cons_piece c (split_slashes s)

-- tuple(part for part in … if part)
abbrev pub path_names : List Text → List Text
path_names [] = []
path_names (t ∷ l) = if is_empty t then path_names l else t ∷ path_names l

abbrev pub records_of : List LibraryNode → Dict LibraryNode → Dict LibraryNode
records_of [] d = d
records_of (n ∷ nodes) d = records_of nodes (put d n.id n)

-- The end of `resolve`: the node's view and its chain are stored.
abbrev pub new_view : LibraryNode → List Text → LibraryNodeView
new_view node names = record {
  node = node;
  logical_path = 47 ∷ join (47 ∷ []) (names ++ node.name ∷ []);
}

abbrev pub add_view : Resolved → String → LibraryNode → List Text → List String → Resolved
add_view r node_id node names ancestors = record {
  views = put r.views node_id (new_view node names);
  chains = put r.chains node_id ancestors;
}

-- What follows the recursive call, for the parent `p`.
unfoldable pub below_parent :
    String → LibraryNode → String → Resolved → Result LibraryError Resolved
below_parent node_id node p r = do
  parent_view ← lookup_key (get r.views p)
  chain ← lookup_key (get r.chains p)
  ok (
      add_view r node_id node (path_names (split_slashes parent_view.logical_path))
        (chain ++ p ∷ []))

-- parent is None or parent.kind != "folder"
abbrev pub is_no_folder : Option LibraryNode → Bool
is_no_folder none = true
is_no_folder (some parent) = not (is_folder parent.kind)

-- The choice on the parent; `above` resolves the parent.
unfoldable pub resolve_node :
    Dict LibraryNode
    → Resolved
    → String
    → (String → Result LibraryError Resolved)
    → LibraryNode
    → Option String
    → Result LibraryError Resolved
unfolding below_parent
resolve_node records r node_id above node none = ok (add_view r node_id node [] [])
resolve_node records r node_id above node (some p) = do
  raise_if (is_no_folder (get records p)) corruption
  resolved ← above p
  below_parent node_id node p resolved

-- `resolve`; the fuel is what the stack leaves of the maximal depth, and the check of the code on the
-- length of the stack.
unfoldable pub resolve_id :
    ℕ → Dict LibraryNode → Resolved → String → List String → Result LibraryError Resolved
unfolding resolve_node
resolve_id zero records r node_id stack = if has r.views node_id then ok r else err corruption
resolve_id (suc room) records r node_id stack = if has r.views node_id then ok r else (do
  raise_if (member stack node_id) corruption
  node ← lookup_key (get records node_id)
  resolve_node records r node_id (λ p. resolve_id room records r p (node_id ∷ stack)) node
      node.parent_id)

-- for node_id in records: resolve(node_id)
unfoldable pub resolve_all :
    Dict LibraryNode → Dict LibraryNode → Resolved → Result LibraryError Resolved
unfolding resolve_id
resolve_all records [] r = ok r
resolve_all records ((node_id, node) ∷ rest) r = do
  resolved ← resolve_id max_library_depth records r node_id []
  resolve_all records rest resolved

unfoldable pub resolve_views : List LibraryNode → Result LibraryError Resolved
unfolding resolve_all
resolve_views nodes = do
  raise_if (ltb max_library_nodes (length nodes)) corruption
  resolve_all (records_of nodes []) (records_of nodes []) (record { views = []; chains = [] })

unfoldable pub validated_parent_depth : Resolved → Option String → Result LibraryError ℕ
validated_parent_depth r none = ok 0
validated_parent_depth r (some p) = elim (get r.views p) [
  | none ↦ err not_found
  | some parent ↦ do
    raise_if (not (is_folder parent.node.kind)) not_folder
    chain ← lookup_key (get r.chains p)
    ok (length chain + 1)
]

unfoldable pub validate_insertion : List LibraryNode → Option String → Result LibraryError Unit
unfolding resolve_views validated_parent_depth
validate_insertion nodes parent_id = do
  raise_if (leb max_library_nodes (length nodes)) conflict
  r ← resolve_views nodes
  parent_depth ← validated_parent_depth r parent_id
  raise_if (ltb max_library_depth (parent_depth + 1)) conflict
  ok tt

-- parent_id == node_id or (parent_id is not None and node_id in chains[parent_id])
abbrev pub closes_cycle : Resolved → String → Option String → Bool
closes_cycle r node_id none = false
closes_cycle r node_id (some p) =
    str_eq p node_id || elim (get r.chains p) [ none ↦ false | some chain ↦ member chain node_id ]

-- The heights of the nodes of the subtree over its root, at least one.
unfoldable pub subtree_height : String → ℕ → Dict (List String) → ℕ
subtree_height node_id depth [] = 1
subtree_height node_id depth ((candidate, chain) ∷ rest) =
    let height = subtree_height node_id depth rest in
    if str_eq candidate node_id || member chain node_id
    then max (length chain + 1 - depth) height
    else height

unfoldable pub validate_move : List LibraryNode → String → Option String → Result LibraryError Unit
unfolding resolve_views validated_parent_depth subtree_height
validate_move nodes node_id parent_id = do
  r ← resolve_views nodes
  raise_if (not (has r.views node_id)) not_found
  parent_depth ← validated_parent_depth r parent_id
  raise_if (closes_cycle r node_id parent_id) cycle
  chain ← lookup_key (get r.chains node_id)
  raise_if (ltb max_library_depth (parent_depth + subtree_height node_id (length chain) r.chains))
      conflict
  ok tt
