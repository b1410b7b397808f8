-- ===== src/UpdateSink/Effects.antt =====
-- Init and Upsert of the sink: the result, the graph of references, the status, and the flag change
-- events.
use go_server_sdk.Prelude.{
  ℕ, String, string_eq, Bool, true, false, ◌||◌, none, List, [], ◌∷◌, ◌==◌, arith, ◌≡◌, refl, ap,
  sym, ◌∙◌, has_key, keys, if◌then◌else◌, if-elim, ◌↔◌,
}
use go_server_sdk.Types.{DataKind, features, kind_eq, ItemDescriptor, DataStore}
use go_server_sdk.Toposort.{Vertex, vertex_eq, Neighbors, LdModel, MapOrder, get_neighbors}
use go_server_sdk.Dependencies.{
  DependencyTracker, neighbors_of, update_dependencies_from, add_affected_items,
}
use go_server_sdk.Dependencies.Affected.{IsClosed, add_affected_items-least}
use go_server_sdk.Dependencies.Graph.{
  IsMirrored, listed, listed-keys, update_dependencies_from-IsMirrored,
}
use go_server_sdk.UpdateSink.{
  UpdateSink, flag_events, send_change_events, maybe_update_error, announce_upsert, upsert,
}

-- An event for the flag is among the ones that were sent.
abbrev pub told : String → List String → Bool
told k [] = false
told k (e ∷ es) = if string_eq.beq e k then true else told k es

abbrev pub no_items : Neighbors
no_items = []

empty-IsClosed : (d : DependencyTracker) → IsClosed d.dependencies_to (λ x. has_key x no_items)
unfolding has_key
empty-IsClosed d x w h e = cc

no_key : (x : Vertex) → has_key x no_items ≡ false
unfolding has_key
no_key x = refl

flag_events_lem :
    (k : String) (items : List Vertex) (events : List String)
    → told k (flag_events items events) ≡ (told k events || listed (features, k) items)
unfolding flag_events
flag_events_lem k [] events = ground arith
flag_events_lem k ((kind, key) ∷ items) events =
    flag_events_lem k items (if kind == features then key ∷ events else events)
    ∙ ground (arith, string_eq.beq_iff key k, kind_eq.beq_iff kind features)

module _ {A S : Type 0} (model : LdModel A) (order : MapOrder) (store : DataStore A S) where
  pub send_change_events_lem :
      (k : String) (affected : Neighbors) (d : UpdateSink S)
      → told k (send_change_events model order store affected d).flag_change_events
        ≡ (told k d.flag_change_events || has_key (features, k) affected)
  unfolding send_change_events
  send_change_events_lem k affected d =
      flag_events_lem k (order.vertex_order (keys affected)) d.flag_change_events
      ∙ ap (λ b. told k d.flag_change_events || b) (listed-keys order (features, k) affected)

  -- The sink after the store has taken something without an error, before the listeners hear of it.
  abbrev pub stored : S → UpdateSink S → UpdateSink S
  stored s d = record d { store = s; last_store_update_failed = false }

  upsert_accepted :
      (now : ℕ) (kind : DataKind) (key : String) (item : ItemDescriptor A) (d : UpdateSink S)
      (s : S)
      → store.upsert kind key item d.store ≡ ((true, none), s)
      → upsert model order store now kind key item d
        ≡ (true, announce_upsert model order store kind key item (stored s d))
  unfolding upsert maybe_update_error
  upsert_accepted now kind key item d s h = rw h refl

  pub announce_upsert-tracker :
      (kind : DataKind) (key : String) (item : ItemDescriptor A) (d : UpdateSink S)
      → (announce_upsert model order store kind key item d).dependency_tracker
        ≡ update_dependencies_from model order kind key item d.dependency_tracker
  unfolding announce_upsert send_change_events
  announce_upsert-tracker kind key item d =
      if-elim
        (λ (x : UpdateSink S).
          x.dependency_tracker
          ≡ update_dependencies_from model order kind key item d.dependency_tracker)
        d.has_listeners _ _ (λ _. refl) (λ _. refl)

  announce_upsert-events :
      (kind : DataKind) (key : String) (item : ItemDescriptor A) (d : UpdateSink S) (k : String)
      → d.has_listeners ≡ true
      → told k (announce_upsert model order store kind key item d).flag_change_events ≡ (
          told k d.flag_change_events
          || has_key
              (features, k)
              (add_affected_items order
                (update_dependencies_from model order kind key item d.dependency_tracker)
                []
                (kind, key)))
  unfolding announce_upsert
  announce_upsert-events kind key item d k l = rw l (
      send_change_events_lem k _ (record d {
        dependency_tracker =
            update_dependencies_from model order kind key item d.dependency_tracker;
      }))

  -- Whether `w` refers to `v` once the item is there: the item by its own references, every other
  -- vertex by those that the sink knew.
  abbrev pub refers_after :
      DataKind → String → ItemDescriptor A → DependencyTracker → Vertex → Vertex → Bool
  refers_after kind key item t w v =
      if vertex_eq.beq (kind, key) w
      then has_key v (get_neighbors model kind item)
      else has_key v (neighbors_of t.dependencies_from w)

  refers_after_lem :
      (kind : DataKind) (key : String) (item : ItemDescriptor A) (t : DependencyTracker)
      → IsMirrored t
      → (v w : Vertex)
      → has_key w
          (neighbors_of (update_dependencies_from model order kind key item t).dependencies_to v)
        ≡ refers_after kind key item t w v
  refers_after_lem kind key item t mirrored v w =
      let (both, from) = update_dependencies_from-IsMirrored model order kind key item t mirrored in
      both w v
      ∙ ap (has_key v) (from w)
      ∙ if-elim (λ (n : Neighbors). has_key v n ≡ refers_after kind key item t w v)
          (vertex_eq.beq (kind, key) w) _ _ (λ e. ground (arith, e)) (λ e. ground (arith, e))

  -- After an Upsert that the store has accepted, with listeners, in a graph whose two directions are in
  -- step, a flag that there was no event for has one just when every set that holds the item, and that no
  -- reference leaves, holds the flag. The references are the new ones of the item and the earlier ones of
  -- all others, and so they are in the graph that is left, whose two directions are in step again.
  pub upsert_tells :
      (now : ℕ) (kind : DataKind) (key : String) (item : ItemDescriptor A) (d : UpdateSink S)
      (s : S) (k : String)
      → store.upsert kind key item d.store ≡ ((true, none), s)
      → d.has_listeners ≡ true
      → told k d.flag_change_events ≡ false
      → IsMirrored d.dependency_tracker
      → ((told k (upsert model order store now kind key item d).1.flag_change_events ≡ true) ↔ (
          (c : Vertex → Bool)
          → ((v w : Vertex)
              → c v ≡ true
              → refers_after kind key item d.dependency_tracker w v ≡ true
              → c w ≡ true)
          → c (kind, key) ≡ true
          → c (features, k) ≡ true))
        × ((v w : Vertex)
            → has_key w (
                neighbors_of
                  (upsert model order store now kind key item
                    d).1.dependency_tracker.dependencies_to
                  v)
              ≡ refers_after kind key item d.dependency_tracker w v)
        × IsMirrored (upsert model order store now kind key item d).1.dependency_tracker
  upsert_tells now kind key item d s k h l t mirrored =
      let tracker = update_dependencies_from model order kind key item d.dependency_tracker in
      let least =
        add_affected_items-least order tracker [] (kind, key) (features, k)
          (empty-IsClosed tracker) in
      let events = announce_upsert-events kind key item (stored s d) k l in
      let edge = refers_after_lem kind key item d.dependency_tracker mirrored in
      let (both, from) =
        update_dependencies_from-IsMirrored model order kind key item d.dependency_tracker
          mirrored in
      rw
        (
          upsert_accepted now kind key item d s h,
          announce_upsert-tracker kind key item (stored s d),
          events,
          t,
        )
        (
          (
            λ e c cl start.
                least.0 e c (λ v w m f. cl v w m (sym (edge v w) ∙ f)) (λ x m. cc (no_key x, m))
                  start,
            λ f. least.1 (λ c cl old start. f c (λ v w m g. cl v w m (edge v w ∙ g)) start),
          ),
          edge,
          both,
        )
