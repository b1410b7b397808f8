-- ===== src/Dependencies/Affected.antt =====
-- addAffectedItems computes the least set that holds the item and is closed under "is referred to by".
use mathlib.Core.List.{Mem, mem-cons, not-mem-nil, mem-cons_self, mem-cons_of_mem}
use mathlib.Core.List.Perm
use mathlib.Core.Logic.Iff
use mathlib.Core.Logic.{∥∥₁_elim, ◌↔◌}
use go_server_sdk.Prelude.{
  ℕ, zero, suc, ◌≤◌, ◌<◌, Bool, true, false, ◌||◌, List, [], ◌∷◌, lookup, has_key, insert,
  has_key-insert, keys, size, mem-keys, if◌then◌else◌, Bool-cases, inl, inr, ◌≡◌, refl, sym, ◌∙◌,
  ap, subst, arith, is_some, Option-cases, has_key_iff,
}
use go_server_sdk.Toposort.{Vertex, vertex_eq, Neighbors, AdjacencyList, MapOrder}
use go_server_sdk.Dependencies.{
  DependencyTracker, neighbors_of, add_each, add_affected_from, add_affected_items,
}

-- `w` refers to `v` by the graph: an edge from `v` to `w`.
abbrev pub Edge : AdjacencyList → Vertex → Vertex → Type 0
Edge to v w = has_key w (neighbors_of to v) ≡ true

-- A set of vertices that no edge leaves.
abbrev pub IsClosed : AdjacencyList → (Vertex → Bool) → Type 0
IsClosed to c = (v w : Vertex) → c v ≡ true → Edge to v w → c w ≡ true

-- The vertices with an entry in the graph that a set does not hold yet.
unvisited : AdjacencyList → Neighbors → ℕ
unvisited [] s = 0
unvisited ((v, n) ∷ g) s = let rest = unvisited g s in if has_key v s then rest else suc rest

abbrev Extends : Neighbors → Neighbors → Type 0
Extends s t = (u : Vertex) → has_key u s ≡ true → has_key u t ≡ true

unvisited_le : (g : AdjacencyList) (s t : Neighbors) → Extends s t → unvisited g t ≤ unvisited g s
unfolding unvisited
unvisited_le [] s t h = omega arith
unvisited_le ((v, n) ∷ g) s t h = ground (arith, h v, unvisited_le g s t h)

unvisited-insert :
    (g : AdjacencyList) (s : Neighbors) (v : Vertex)
    → has_key v g ≡ true
    → has_key v s ≡ false
    → unvisited g (insert v tt s) < unvisited g s
unfolding unvisited has_key
unvisited-insert [] s v h k = cc
unvisited-insert ((u, n) ∷ g) s v h k = elim (Bool-cases (vertex_eq.beq u v)) [
  | inl same ↦
      ground (arith, has_key-insert v u tt s, vertex_eq.beq_iff u v, vertex_eq.beq_iff v u, le)
  | inr other ↦ ground (
    arith,
    has_key-insert v u tt s,
    vertex_eq.beq_iff u v,
    vertex_eq.beq_iff v u,
    unvisited-insert g s v,
  )
]
  where
    le : unvisited g (insert v tt s) ≤ unvisited g s
    le = unvisited_le g s (insert v tt s) (λ x l. ground (arith, has_key-insert v x tt s))

has_key-Edge : (to : AdjacencyList) (v w : Vertex) → Edge to v w → has_key v to ≡ true
unfolding has_key
has_key-Edge to v w e = elim (Option-cases (lookup v to)) [
  | inl absent ↦ ground (arith, rw absent at e)
  | inr (n, found) ↦ has_key_iff v to ∙ ap is_some found
]

module _ (to : AdjacencyList) where
  -- What calls at the vertices of `P` add to a set.
  record Adds (P : Vertex → Type 0) (s t : Neighbors) : Type 0 where
    extends : Extends s t
    starts : (v : Vertex) → P v → has_key v t ≡ true
    closed :
        (u w : Vertex) → has_key u s ≡ false → has_key u t ≡ true → Edge to u w → has_key w t ≡ true
    least :
        (c : Vertex → Bool)
        → IsClosed to c
        → ((v : Vertex) → P v → c v ≡ true)
        → (u : Vertex) → has_key u t ≡ true
        → (has_key u s || c u) ≡ true

  Adds-nothing :
      (P : Vertex → Type 0) (s : Neighbors) → ((v : Vertex) → P v → has_key v s ≡ true) → Adds P s s
  Adds-nothing P s h = record {
    extends = λ u k. k;
    starts = h;
    closed = λ u w absent present e. cc;
    least = λ c cl start u k. ground arith;
  }

  Adds-cons :
      (v : Vertex) (vs : List Vertex) (s t r : Neighbors)
      → Adds (λ u. u ≡ v) s t
      → Adds (λ u. Mem u vs) t r
      → Adds (λ u. Mem u (v ∷ vs)) s r
  Adds-cons v vs s t r a b = record {
    extends = λ u k. b.extends u (a.extends u k);
    starts = λ u m.
        ∥∥₁_elim (mem-cons.0 m) (Bool-set _ _)
          (λ x. elim x [ inl e ↦ b.extends u (a.starts u e) | inr k ↦ b.starts u k ]);
    closed = λ u w absent present e. elim (Bool-cases (has_key u t)) [
      | inl old ↦ b.extends w (a.closed u w absent old e)
      | inr new ↦ b.closed u w new present e
    ];
    least = λ c cl start u k. ground (
      arith,
      a.least c cl (λ x e. start x (subst (λ y. Mem y (v ∷ vs)) (sym e) mem-cons_self)) u,
      b.least c cl (λ x m. start x (mem-cons_of_mem v m)) u k,
    );
  }
    where
      Bool-set : IsSet Bool
      Bool-set = hlevel

  Adds-insert :
      (v : Vertex) (ws : List Vertex) (s t : Neighbors)
      → ((w : Vertex) → Mem w ws ↔ Edge to v w)
      → Adds (λ u. Mem u ws) (insert v tt s) t
      → Adds (λ u. u ≡ v) s t
  Adds-insert v ws s t edges a = record {
    extends = λ u k. a.extends u (ground (arith, has_key-insert v u tt s));
    starts = λ u e. a.extends u (ground (arith, has_key-insert v u tt s, vertex_eq.beq_iff v u));
    closed = λ u w absent present e. elim (Bool-cases (has_key u (insert v tt s))) [
      | inl old ↦
          let same : u ≡ v = ground (arith, has_key-insert v u tt s, vertex_eq.beq_iff v u) in
          a.starts w ((edges w).1 (subst (λ x. Edge to x w) same e))
      | inr new ↦ a.closed u w new present e
    ];
    least = λ c cl start u k. ground (
      arith,
      has_key-insert v u tt s,
      vertex_eq.beq_iff v u,
      start u,
      a.least c cl (λ w m. cl v w (start v refl) ((edges w).0 m)) u k,
    );
  }

  module _ (order : MapOrder) where
    add_each-Adds :
        (fuel : ℕ) (ws : List Vertex) (s : Neighbors)
        → ((w : Vertex) → Mem w ws → unvisited to s < fuel)
        → ((v : Vertex) (t : Neighbors)
            → unvisited to t < fuel
            → Adds (λ u. u ≡ v) t (add_affected_from order to fuel v t))
        → Adds (λ u. Mem u ws) s (add_each (add_affected_from order to fuel) ws s)
    unfolding add_each
    add_each-Adds fuel [] s enough visit = Adds-nothing _ s (λ v m. absurd (not-mem-nil m))
    add_each-Adds fuel (w ∷ ws) s enough visit =
        let first = visit w s (enough w mem-cons_self) in
        let t = add_affected_from order to fuel w s in
        Adds-cons w ws s t _ first (
          add_each-Adds fuel ws t
            (λ x m. ground (arith, unvisited_le to s t first.extends, enough w mem-cons_self))
            visit)

    -- A call with more fuel than there are vertices left to visit.
    add_affected_from-Adds :
        (fuel : ℕ) (v : Vertex) (s : Neighbors)
        → unvisited to s < fuel
        → Adds (λ u. u ≡ v) s (add_affected_from order to fuel v s)
    unfolding add_affected_from
    add_affected_from-Adds zero v s h = absurd (omega arith)
    add_affected_from-Adds (suc fuel) v s h = elim (Bool-cases (has_key v s)) [
      | inl old ↦
          rw (old, add_affected_from)
            (Adds-nothing (λ u. u ≡ v) s (λ u e. subst (λ x. has_key x s ≡ true) (sym e) old))
      | inr new ↦
          rw (new, add_affected_from)
            (Adds-insert v ws s _ edges (
              add_each-Adds fuel ws (insert v tt s)
                (λ w m.
                  ground (arith, unvisited-insert to s v (has_key-Edge to v w ((edges w).0 m)) new))
                (add_affected_from-Adds fuel)))
    ]
      where
        ws : List Vertex
        ws = order.vertex_order (keys (neighbors_of to v))

        edges : (w : Vertex) → Mem w ws ↔ Edge to v w
        edges w =
            Iff.trans (Perm.mem_iff (order.vertex_order_perm (keys (neighbors_of to v))))
              (mem-keys w (neighbors_of to v))

unvisited_le_size : (g : AdjacencyList) (s : Neighbors) → unvisited g s ≤ size g
unfolding unvisited
unvisited_le_size [] s = omega arith
unvisited_le_size ((v, n) ∷ g) s = ground (arith, unvisited_le_size g s)

-- addAffectedItems on a set that no reference leaves gives the least such set that holds the given
-- one and the vertex: an item is in the result just when it is in each of those sets.
pub add_affected_items-least :
    (order : MapOrder) (d : DependencyTracker) (items : Neighbors) (v u : Vertex)
    → IsClosed d.dependencies_to (λ x. has_key x items)
    → (has_key u (add_affected_items order d items v) ≡ true) ↔ (
        (c : Vertex → Bool)
        → IsClosed d.dependencies_to c
        → ((x : Vertex) → has_key x items ≡ true → c x ≡ true)
        → c v ≡ true
        → c u ≡ true)
unfolding add_affected_items
add_affected_items-least order d items v u closed = (
  (λ h c cl old start.
      ground (arith, old u, run.least c cl (λ x e. subst (λ y. c y ≡ true) (sym e) start) u h)),
  (λ h.
      h (λ x. has_key x (add_affected_items order d items v)) result-IsClosed run.extends
        (run.starts v refl)),
)
  where
    run : Adds d.dependencies_to (λ x. x ≡ v) items (add_affected_items order d items v)
    run =
        add_affected_from-Adds d.dependencies_to order (suc (size d.dependencies_to)) v items
          (omega (arith, unvisited_le_size d.dependencies_to items))

    result-IsClosed :
        IsClosed d.dependencies_to (λ x. has_key x (add_affected_items order d items v))
    result-IsClosed x w h e = elim (Bool-cases (has_key x items)) [
      | inl old ↦ run.extends w (closed x w old e)
      | inr new ↦ run.closed x w new h e
    ]
