-- ===== src/Dependencies/Graph.antt =====
-- updateDependenciesFrom and reset keep the two directions of the graph in step.
use mathlib.Core.List.{Mem, Memᴰ, mem-cons_self, mem-cons_of_mem}
use mathlib.Core.List.Perm
use mathlib.Core.Logic.Iff
use mathlib.Core.Logic.{∥∥₁_elim, ◌↔◌}
use go_server_sdk.Prelude.{
  String, Bool, true, false, ◌&&◌, List, [], ◌∷◌, lookup, has_key, insert, delete, lookup-insert,
  has_key-insert, has_key-delete, keys, mem-keys, if◌then◌else◌, Bool-cases, inl, inr, ◌≡◌, refl,
  sym, ◌∙◌, ap, subst, arith, or_else, none, some, Option-cases,
}
use go_server_sdk.Types.{DataKind, ItemDescriptor}
use go_server_sdk.Toposort.{
  Vertex, vertex_eq, new_vertex, Neighbors, AdjacencyList, add, LdModel, MapOrder, get_neighbors,
}
use go_server_sdk.Dependencies.{
  DependencyTracker, neighbors_of, remove_from, add_to, update_dependencies_from, reset,
}

-- `v` refers to `w` by the one direction just when it does by the other.
abbrev pub IsMirrored : DependencyTracker → Type 0
IsMirrored d =
    (v w : Vertex)
    → has_key v (neighbors_of d.dependencies_to w) ≡ has_key w (neighbors_of d.dependencies_from v)

abbrev pub listed : Vertex → List Vertex → Bool
listed v [] = false
listed v (w ∷ ws) = if vertex_eq.beq w v then true else listed v ws

listed_of_memᴰ : (v : Vertex) (ws : List Vertex) → Memᴰ v ws → listed v ws ≡ true
listed_of_memᴰ v [] m = elim m [ ]
listed_of_memᴰ v (w ∷ ws) (Memᴰ.head p) = ground (arith, vertex_eq.beq_iff w v)
listed_of_memᴰ v (w ∷ ws) (Memᴰ.tail m) = ground (arith, listed_of_memᴰ v ws m)

mem_of_listed : (v : Vertex) (ws : List Vertex) → listed v ws ≡ true → Mem v ws
mem_of_listed v [] h = cc
mem_of_listed v (w ∷ ws) h = elim (Bool-cases (vertex_eq.beq w v)) [
  | inl same ↦ subst (λ x. Mem x (w ∷ ws)) ((vertex_eq.beq_iff w v).0 same) mem-cons_self
  | inr other ↦ mem-cons_of_mem w (mem_of_listed v ws (rw other at h))
]

Bool-ext : (a b : Bool) → (a ≡ true) ↔ (b ≡ true) → a ≡ b
Bool-ext a b h = ground (arith, h)

pub listed-keys :
    (order : MapOrder) (v : Vertex) (s : Neighbors)
    → listed v (order.vertex_order (keys s)) ≡ has_key v s
listed-keys order v s = Bool-ext _ _ (
    Iff.trans (λ h. mem_of_listed v _ h, λ m. ∥∥₁_elim m (Bool-set _ _) (listed_of_memᴰ v _))
      (Iff.trans (Perm.mem_iff (order.vertex_order_perm (keys s))) (mem-keys v s)))
  where
    Bool-set : IsSet Bool
    Bool-set = hlevel

-- The set under a vertex after a write to the set under `dep`.
has_key-neighbors_of :
    (dep : Vertex) (s : Neighbors) (to : AdjacencyList) (v w : Vertex)
    → has_key v (neighbors_of (insert dep s to) w)
      ≡ (if vertex_eq.beq dep w then has_key v s else has_key v (neighbors_of to w))
has_key-neighbors_of dep s to v w =
    ap (λ x. has_key v (or_else x [])) (lookup-insert dep w s to) ∙ choose (vertex_eq.beq dep w)
  where
    choose :
        (b : Bool)
        → has_key v (or_else (if b then some s else lookup w to) [])
          ≡ (if b then has_key v s else has_key v (neighbors_of to w))
    choose true = refl
    choose false = refl

-- Reading at two names of one vertex.
same_neighbors :
    (to : AdjacencyList) (v dep w : Vertex)
    → vertex_eq.beq dep w ≡ true
    → has_key v (neighbors_of to w) ≡ has_key v (neighbors_of to dep)
same_neighbors to v dep w h =
    ap (λ x. has_key v (neighbors_of to x)) (sym ((vertex_eq.beq_iff dep w).0 h))

no_neighbors :
    (to : AdjacencyList) (v w : Vertex) → lookup w to ≡ none → has_key v (neighbors_of to w) ≡ false
unfolding has_key
no_neighbors to v w h = ap (λ x. has_key v (or_else x [])) h

remove_from_lem :
    (x : Vertex) (deps : List Vertex) (to : AdjacencyList) (v w : Vertex)
    → has_key v (neighbors_of (remove_from x deps to) w)
      ≡ (if vertex_eq.beq x v && listed w deps then false else has_key v (neighbors_of to w))
unfolding remove_from
remove_from_lem x [] to v w = ground arith
remove_from_lem x (dep ∷ deps) to v w = elim (Option-cases (lookup dep to)) [
  | inl absent ↦ rw absent (
      remove_from_lem x deps to v w
      ∙ ground (arith, same_neighbors to v dep w, no_neighbors to v dep absent))
  | inr (s, found) ↦ rw found (
      remove_from_lem x deps (insert dep (delete x s) to) v w
      ∙ ground (
        arith,
        has_key-neighbors_of dep (delete x s) to v w,
        has_key-delete x v s,
        same_neighbors to v dep w,
        ap (λ y. has_key v (or_else y [])) found,
      ))
]

add_to_lem :
    (x : Vertex) (deps : List Vertex) (to : AdjacencyList) (v w : Vertex)
    → has_key v (neighbors_of (add_to x deps to) w)
      ≡ (if vertex_eq.beq x v && listed w deps then true else has_key v (neighbors_of to w))
unfolding add_to
add_to_lem x [] to v w = ground arith
add_to_lem x (dep ∷ deps) to v w =
    add_to_lem x deps (insert dep (add x old) to) v w
    ∙ ground (
      arith,
      has_key-neighbors_of dep (add x old) to v w,
      has_key-insert x v tt old,
      same_neighbors to v dep w,
    )
  where
    old : Neighbors
    old = neighbors_of to dep

pub reset-IsMirrored : (d : DependencyTracker) → IsMirrored (reset d)
unfolding reset has_key lookup
reset-IsMirrored d v w = refl

-- Recording an item's new references, in any order of the maps' ranges, keeps the two directions of
-- the graph in step, and the item's outgoing references become the new ones.
pub update_dependencies_from-IsMirrored :
    {A : Type 0} (model : LdModel A) (order : MapOrder) (kind : DataKind) (k : String)
    (item : ItemDescriptor A) (d : DependencyTracker)
    → IsMirrored d
    → IsMirrored (update_dependencies_from model order kind k item d)
      × ((v : Vertex)
          → neighbors_of (update_dependencies_from model order kind k item d).dependencies_from v
            ≡ (if vertex_eq.beq (new_vertex kind k) v
                then get_neighbors model kind item
                else neighbors_of d.dependencies_from v))
unfolding update_dependencies_from
update_dependencies_from-IsMirrored model order kind k item d mirrored = (both, from_lem)
  where
    x : Vertex
    x = new_vertex kind k

    updated : Neighbors
    updated = get_neighbors model kind item

    old_set : Neighbors
    old_set = neighbors_of d.dependencies_from x

    from_lem :
        (v : Vertex)
        → neighbors_of (insert x updated d.dependencies_from) v
          ≡ (if vertex_eq.beq x v then updated else neighbors_of d.dependencies_from v)
    from_lem v = ground (arith, lookup-insert x v updated d.dependencies_from)

    both : IsMirrored (update_dependencies_from model order kind k item d)
    both v w =
        add_to_lem x (order.vertex_order (keys updated)) _ v w
        ∙ ground (
          arith,
          remove_from_lem x (order.vertex_order (keys old_set)) d.dependencies_to v w,
          listed-keys order w updated,
          listed-keys order w old_set,
          mirrored v w,
          has_key-neighbors_of x updated d.dependencies_from w v,
          same_neighbors d.dependencies_from w x v,
        )
