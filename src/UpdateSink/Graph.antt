-- ===== src/UpdateSink/Graph.antt =====
-- The graph of references that Init of the sink makes of a data set.

use go_server_sdk.Dependencies.{reset}
use go_server_sdk.Prelude.{
  Bool, false, Option, none, some, List, [], ◌∷◌, ◌≡◌, refl, ap, ◌∙◌, has_key, arith, Bool-cases,
  lookup, last_value, Option-cases, inl, inr, string_eq, first_some, if◌then◌else◌,
}
use go_server_sdk.Types.{
  DataKind, kind_eq, ItemDescriptor, KeyedItemDescriptor, Collection, DataStore,
}
use go_server_sdk.Toposort.{Vertex, vertex_eq, Neighbors, LdModel, MapOrder, get_neighbors}
use go_server_sdk.Dependencies.{DependencyTracker, neighbors_of}
use go_server_sdk.Dependencies.Graph.{
  IsMirrored, reset-IsMirrored, update_dependencies_from-IsMirrored,
}
use go_server_sdk.UpdateSink.{track_items, track_collections}

module _ {A S : Type 0} (model : LdModel A) (order : MapOrder) (store : DataStore A S) where
  track_items-IsMirrored :
      (kind : DataKind) (items : List (KeyedItemDescriptor A)) (t : DependencyTracker)
      → IsMirrored t
      → IsMirrored (track_items model order store kind items t)
  unfolding track_items
  track_items-IsMirrored kind [] t h = h
  track_items-IsMirrored kind ((key, item) ∷ items) t h =
      track_items-IsMirrored kind items _
        (update_dependencies_from-IsMirrored model order kind key item t h).0

  pub track_collections-IsMirrored :
      (cs : List (Collection A)) (t : DependencyTracker)
      → IsMirrored t
      → IsMirrored (track_collections model order store cs t)
  unfolding track_collections
  track_collections-IsMirrored [] t h = h
  track_collections-IsMirrored (c ∷ cs) t h =
      track_collections-IsMirrored cs _ (track_items-IsMirrored c.kind c.items t h)

  -- The last item that a data set has under a kind and a key, in any of its collections.
  abbrev pub latest : List (Collection A) → Vertex → Option (ItemDescriptor A)
  latest [] v = none
  latest (c ∷ cs) v =
      first_some (latest cs v) (if kind_eq.beq c.kind v.0 then last_value v.1 c.items else none)

  -- Whether `w` refers to `v` in a data set.
  abbrev pub refers_in : List (Collection A) → Vertex → Vertex → Bool
  refers_in cs w v = elim (latest cs w) [
    | none ↦ false
    | some item ↦ has_key v (get_neighbors model w.0 item)
  ]

  abbrev known : Vertex → Option (ItemDescriptor A) → Neighbors → Neighbors
  known v o n = elim o [ none ↦ n | some item ↦ get_neighbors model v.0 item ]

  track_items-known :
      (kind : DataKind) (items : List (KeyedItemDescriptor A)) (t : DependencyTracker) (v : Vertex)
      → IsMirrored t
      → neighbors_of (track_items model order store kind items t).dependencies_from v
        ≡ known v
            (if kind_eq.beq kind v.0 then last_value v.1 items else none)
            (neighbors_of t.dependencies_from v)
  unfolding track_items
  track_items-known kind [] t v h = ground arith
  track_items-known kind ((key, item) ∷ items) t (k, j) h =
      let (both, from) = update_dependencies_from-IsMirrored model order kind key item t h in
      track_items-known kind items _ (k, j) both
      ∙ ap (known (k, j) (if kind_eq.beq kind k then last_value j items else none)) (from (k, j))
      ∙ elim (Bool-cases (kind_eq.beq kind k)) [
        | inl same ↦ ground (
          arith,
          same,
          ap (λ x. get_neighbors model x item) ((kind_eq.beq_iff kind k).0 same),
          Option-cases (last_value j items),
        )
        | inr different ↦ ground (arith, different)
      ]

  track_collections-known :
      (cs : List (Collection A)) (t : DependencyTracker) (v : Vertex)
      → IsMirrored t
      → neighbors_of (track_collections model order store cs t).dependencies_from v
        ≡ known v (latest cs v) (neighbors_of t.dependencies_from v)
  unfolding track_collections
  track_collections-known [] t v h = refl
  track_collections-known (c ∷ cs) t v h =
      track_collections-known cs _ v (track_items-IsMirrored c.kind c.items t h)
      ∙ ap (known v (latest cs v)) (track_items-known c.kind c.items t v h)
      ∙ known-known (latest cs v) _ (neighbors_of t.dependencies_from v)
    where
      known-known :
          (late early : Option (ItemDescriptor A)) (n : Neighbors)
          → known v late (known v early n) ≡ known v (first_some late early) n
      known-known none early n = refl
      known-known (some item) early n = refl

  -- The graph that a data set leaves, from an empty one.
  pub track_collections-refers :
      (cs : List (Collection A)) (t : DependencyTracker) (v w : Vertex)
      → has_key w
          (neighbors_of (track_collections model order store cs (reset t)).dependencies_to v)
        ≡ refers_in cs w v
  unfolding reset has_key lookup
  track_collections-refers cs t v w =
      track_collections-IsMirrored cs (reset t) (reset-IsMirrored t) w v
      ∙ ap (has_key v) (track_collections-known cs (reset t) w (reset-IsMirrored t))
      ∙ elim (Option-cases (latest cs w)) [
        | inl e ↦ ground (arith, e)
        | inr (item, e) ↦ ground (arith, e)
      ]
