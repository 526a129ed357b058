-- ===== src/Examples/Filing.antt =====
-- Runs of the checks of the document library, apps/api/app/services/library.py.
use plug_and_play_local_rag.Base.{
  ◌≡◌, refl, String, List, [], ◌∷◌, Option, none, some, true, has, ok, err, get, put,
}
use plug_and_play_local_rag.Tokens.{Text, join}
use plug_and_play_local_rag.Library.{
  Kind, folder, file, LibraryNode, LibraryNodeView, LibraryError, Resolved, records_of,
  below_parent, resolve_node, resolve_id, resolve_all, resolve_views, validated_parent_depth,
  subtree_height, validate_insertion, validate_move,
}
use plug_and_play_local_rag.Library.Forest.{Ancestors, resolve_views-IsForest}

abbrev node : String → Option String → Kind → Text → LibraryNode
node id parent_id kind name = record { id = id; parent_id = parent_id; kind = kind; name = name }

-- The file "f" is listed before its folder "b", which is in the folder "a".
abbrev nodes : List LibraryNode
nodes =
    node "f" (some "b") file (102 ∷ [])
    ∷ node "b" (some "a") folder (98 ∷ [])
    ∷ node "a" none folder (97 ∷ [])
    ∷ []

abbrev loop : List LibraryNode
loop = node "b" (some "a") folder (98 ∷ []) ∷ node "a" (some "b") folder (97 ∷ []) ∷ []

abbrev view : LibraryNode → Text → LibraryNodeView
view n path = record { node = n; logical_path = path }

abbrev resolved : Resolved
resolved = record {
  views =
      ("a", view (node "a" none folder (97 ∷ [])) (47 ∷ 97 ∷ []))
      ∷ ("b", view (node "b" (some "a") folder (98 ∷ [])) (47 ∷ 97 ∷ 47 ∷ 98 ∷ []))
      ∷ ("f", view (node "f" (some "b") file (102 ∷ [])) (47 ∷ 97 ∷ 47 ∷ 98 ∷ 47 ∷ 102 ∷ []))
      ∷ [];
  chains = ("a", []) ∷ ("b", "a" ∷ []) ∷ ("f", "a" ∷ "b" ∷ []) ∷ [];
}

loop_refused : resolve_views loop ≡ err LibraryError.corruption
unfolding resolve_views resolve_all resolve_id resolve_node below_parent get put
loop_refused = refl

insertion_below_a_file : validate_insertion nodes (some "f") ≡ err LibraryError.not_folder
unfolding validate_insertion validated_parent_depth resolve_views resolve_all resolve_id
    resolve_node below_parent get put
insertion_below_a_file = refl

move_into_itself : validate_move nodes "a" (some "b") ≡ err LibraryError.cycle
unfolding validate_move validated_parent_depth resolve_views resolve_all resolve_id resolve_node
    below_parent get put
move_into_itself = refl

move_to_the_root : validate_move nodes "b" none ≡ ok tt
unfolding validate_move validated_parent_depth subtree_height resolve_views resolve_all resolve_id
    resolve_node below_parent get put
move_to_the_root = refl

resolve_views-IsForest_example :
    (has resolved.views "f" ≡ true)
    × ((c : List String) × (get resolved.chains "f" ≡ some c)
        × Ancestors (records_of nodes []) "f" c)
unfolding resolve_views resolve_all resolve_id resolve_node below_parent get put join
resolve_views-IsForest_example =
    resolve_views-IsForest nodes resolved "f" (node "f" (some "b") file (102 ∷ [])) refl refl
