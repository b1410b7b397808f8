-- ===== src/Samples/Sorting.antt =====
-- The sorting of the sample data.
use mathlib.Core.List.{Mem, mem-cons, not-mem-nil, Perm}
use mathlib.Core.Logic.{∥∥₁_elim}
use go_server_sdk.Prelude.{
  ℕ, Eq-set, String, List, [], ◌∷◌, some, pos, ◌≡◌, sym, subst, ap, arith, inl, inr, map, lookup,
  insert, insert_all, keys, ◌==◌, if◌then◌else◌, Bool-cases, string_eq,
}
use go_server_sdk.Types.{Collection, features}
use go_server_sdk.Toposort.{Vertex, sort, get_neighbors, add_items_in_dependency_order}
use go_server_sdk.Toposort.Visits.{add_items_in_dependency_order-perm}
use go_server_sdk.Toposort.Order.{IsOrdered, IsRanked, add_items_in_dependency_order-IsOrdered}
use go_server_sdk.Toposort.Collections.{IsInOrder, IsArranged, sort_lem}
use go_server_sdk.Proto.{Event, put_object, delete_object}
use go_server_sdk.Samples.{Item, flag, two_flags, full_data, sample_model, sample_order}

add_items_in_dependency_order-perm_example :
    Perm (add_items_in_dependency_order sample_model sample_order features two_flags) two_flags
unfolding insert insert_all
add_items_in_dependency_order-perm_example =
    add_items_in_dependency_order-perm sample_model sample_order features two_flags

abbrev rank : String → ℕ
rank k = if k == "b" then 1 else 0

only_neighbor : (v : Vertex) → Mem v ((features, "a") ∷ []) → v.1 ≡ "a"
only_neighbor v m =
    ∥∥₁_elim (mem-cons.0 m) (Eq-set _ _)
      (λ x. elim x [ inl e ↦ ap (λ y. y.1) e | inr k ↦ absurd (not-mem-nil k) ])

given-IsRanked : IsRanked sample_model features (insert_all two_flags []) rank
unfolding insert insert_all lookup get_neighbors
given-IsRanked key item found v refers = elim (Bool-cases ("b" == key)) [
  | inl is_b ↦
      let same : item ≡ flag 1 ("a" ∷ []) = ground arith in
      let neighbor : Mem v ((features, "a") ∷ []) =
        subst (λ i. Mem v (keys (get_neighbors sample_model features i))) same refers.neighbor in
      let target : v.1 ≡ "a" = only_neighbor v neighbor in
      rw (target, sym ((string_eq.beq_iff "b" key).0 is_b)) (omega arith)
  | inr not_b ↦ elim (Bool-cases ("a" == key)) [
    | inl is_a ↦
        let same : item ≡ flag 1 [] = ground arith in
        absurd (
          not-mem-nil (
            subst (λ i. Mem v (keys (get_neighbors sample_model features i))) same refers.neighbor))
    | inr not_a ↦ cc (found, rw (not_b, not_a) at found)
  ]
]

add_items_in_dependency_order-IsOrdered_example :
    IsOrdered sample_model features
      (insert_all two_flags [])
      []
      (add_items_in_dependency_order sample_model sample_order features two_flags)
add_items_in_dependency_order-IsOrdered_example =
    add_items_in_dependency_order-IsOrdered sample_model sample_order features two_flags rank
      given-IsRanked

sort_lem_example :
    IsInOrder (sort sample_model sample_order full_data)
    × (arrange : Collection Item → Collection Item) × Perm
        (sort sample_model sample_order full_data)
        (map arrange full_data)
    × ((c : Collection Item) → IsArranged c (arrange c))
sort_lem_example = sort_lem sample_model sample_order full_data

abbrev two_events : List (Event Item)
two_events =
    put_object (record { version = pos 2; kind = "flag"; key = "a"; object = some [] })
    ∷ delete_object (record { version = pos 3; kind = "segment"; key = "s" })
    ∷ []
