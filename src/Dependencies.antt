-- ===== src/Dependencies.antt =====
-- internal/datasource/data_model_dependencies.go: the graph of the references between items.
pub mod Graph
pub mod Affected
use go_server_sdk.Prelude.{
  ℕ, zero, suc, String, Bool, true, false, Option, none, some, List, [], ◌∷◌, Map, lookup, has_key,
  insert, delete, or_else, keys, size, if◌then◌else◌,
}
use go_server_sdk.Types.{DataKind, ItemDescriptor}
use go_server_sdk.Toposort.{
  Vertex, vertex_eq, new_vertex, Neighbors, AdjacencyList, add, LdModel, MapOrder, get_neighbors,
}

pub record DependencyTracker : Type 0 where
  pub dependencies_from : AdjacencyList
  pub dependencies_to : AdjacencyList

abbrev pub new_dependency_tracker : DependencyTracker
new_dependency_tracker = record { dependencies_from = []; dependencies_to = [] }

-- The set under a vertex; reading a missing one gives the empty set.
abbrev pub neighbors_of : AdjacencyList → Vertex → Neighbors
neighbors_of g v = or_else (lookup v g) []

-- `if depsToThisOldDep != nil { delete(depsToThisOldDep, fromWhat) }` for each old dependency.
unfoldable pub remove_from : Vertex → List Vertex → AdjacencyList → AdjacencyList
remove_from from_what [] to = to
remove_from from_what (old_dep ∷ deps) to =
    remove_from from_what deps
      (elim (lookup old_dep to) [ none ↦ to | some s ↦ insert old_dep (delete from_what s) to ])

-- The loop over the new dependencies.
unfoldable pub add_to : Vertex → List Vertex → AdjacencyList → AdjacencyList
add_to from_what [] to = to
add_to from_what (new_dep ∷ deps) to =
    add_to from_what deps (insert new_dep (add from_what (neighbors_of to new_dep)) to)

module _ {A : Type 0} (model : LdModel A) (order : MapOrder) where
  unfoldable pub update_dependencies_from :
      DataKind → String → ItemDescriptor A → DependencyTracker → DependencyTracker
  unfolding remove_from add_to
  update_dependencies_from kind from_key from_item d =
      let from_what = new_vertex kind from_key in
      let updated = get_neighbors model kind from_item in
      let old_set = neighbors_of d.dependencies_from from_what in
      record {
        dependencies_from = insert from_what updated d.dependencies_from;
        dependencies_to =
            add_to from_what (order.vertex_order (keys updated))
              (remove_from from_what (order.vertex_order (keys old_set)) d.dependencies_to);
      }

unfoldable pub reset : DependencyTracker → DependencyTracker
reset d = record { dependencies_from = []; dependencies_to = [] }

-- The loop of addAffectedItems; `visit` is the recursive call.
unfoldable pub add_each : (Vertex → Neighbors → Neighbors) → List Vertex → Neighbors → Neighbors
add_each visit [] items_out = items_out
add_each visit (item ∷ items) items_out = add_each visit items (visit item items_out)

module _ (order : MapOrder) (to : AdjacencyList) where
  -- Each recursive call follows an edge from a vertex that has just been added, so the number of
  -- vertices with an entry in the graph, and one more, is enough fuel.
  unfoldable pub add_affected_from : ℕ → Vertex → Neighbors → Neighbors
  unfolding add_each
  add_affected_from zero item items_out = items_out
  add_affected_from (suc fuel) item items_out = elim (has_key item items_out) [
    | true ↦ items_out
    | false ↦
        add_each (add_affected_from fuel) (order.vertex_order (keys (neighbors_of to item)))
          (add item items_out)
  ]

unfoldable pub add_affected_items : MapOrder → DependencyTracker → Neighbors → Vertex → Neighbors
unfolding add_affected_from
add_affected_items order d items_out initial =
    add_affected_from order d.dependencies_to (suc (size d.dependencies_to)) initial items_out
