-- ===== src/Samples/References.antt =====
-- The graph of references of the sample data.
use go_server_sdk.Prelude.{
  String, [], ◌∷◌, Bool, true, ◌≡◌, refl, ◌↔◌, has_key, lookup, if◌then◌else◌, string_eq, insert,
}
use go_server_sdk.Types.{features, segments, kind_eq}
use go_server_sdk.Toposort.{Vertex, vertex_eq, Neighbors, get_neighbors}
use go_server_sdk.Dependencies.{
  DependencyTracker, new_dependency_tracker, update_dependencies_from, neighbors_of,
  add_affected_items, add_to, remove_from, reset,
}
use go_server_sdk.Dependencies.Affected.{IsClosed, add_affected_items-least}
use go_server_sdk.Dependencies.Graph.{
  IsMirrored, update_dependencies_from-IsMirrored, reset-IsMirrored,
}
use go_server_sdk.UpdateSink.{full_data_set_to_map, compute_changed_items_for_full_data_set}
use go_server_sdk.UpdateSink.Changes.{
  Within, IsClosedSet, IsChangedItem, compute_changed_items_for_full_data_set-least,
}
use go_server_sdk.Samples.{sample_model, sample_order, flag, full_data, delta_data}

abbrev no_items : Neighbors
no_items = []

-- "b" refers to "a".
abbrev one_edge : DependencyTracker
one_edge =
    update_dependencies_from sample_model sample_order features "b" (flag 1 ("a" ∷ []))
      (reset new_dependency_tracker)

abbrev a : Vertex
a = (features, "a")

abbrev b : Vertex
b = (features, "b")

nothing-IsClosed : IsClosed one_edge.dependencies_to (λ x. has_key x no_items)
unfolding has_key
nothing-IsClosed x w h e = cc

affected_by_a : has_key b (add_affected_items sample_order one_edge no_items a) ≡ true
unfolding update_dependencies_from reset lookup insert has_key add_affected_items add_to remove_from
    get_neighbors
affected_by_a = refl

update_dependencies_from-IsMirrored_example :
    IsMirrored one_edge
    × ((v : Vertex)
        → neighbors_of one_edge.dependencies_from v ≡ (
            if vertex_eq.beq b v
            then get_neighbors sample_model features (flag 1 ("a" ∷ []))
            else neighbors_of (reset new_dependency_tracker).dependencies_from v))
update_dependencies_from-IsMirrored_example =
    update_dependencies_from-IsMirrored sample_model sample_order features "b" (flag 1 ("a" ∷ []))
      (reset new_dependency_tracker) (reset-IsMirrored new_dependency_tracker)

add_affected_items-least_example :
    (has_key b (add_affected_items sample_order one_edge no_items a) ≡ true) ↔ (
      (c : Vertex → Bool)
      → IsClosed one_edge.dependencies_to c
      → ((x : Vertex) → has_key x no_items ≡ true → c x ≡ true)
      → c a ≡ true
      → c b ≡ true)
add_affected_items-least_example =
    add_affected_items-least sample_order one_edge no_items a b nothing-IsClosed

abbrev changed : Neighbors
changed =
    compute_changed_items_for_full_data_set sample_order one_edge (full_data_set_to_map full_data)
      (full_data_set_to_map delta_data)

compute_changed_items_for_full_data_set-least_example :
    IsClosedSet one_edge changed
    × ((c : Vertex → Bool)
        → IsClosed one_edge.dependencies_to c
        → Within c changed ↔ (
            ((key : String)
              → IsChangedItem
                  (full_data_set_to_map full_data)
                  (full_data_set_to_map delta_data)
                  features
                  key
              → c (features, key) ≡ true)
            × ((key : String)
                → IsChangedItem
                    (full_data_set_to_map full_data)
                    (full_data_set_to_map delta_data)
                    segments
                    key
                → c (segments, key) ≡ true)))
compute_changed_items_for_full_data_set-least_example =
    compute_changed_items_for_full_data_set-least sample_order one_edge
      (full_data_set_to_map full_data) (full_data_set_to_map delta_data)
