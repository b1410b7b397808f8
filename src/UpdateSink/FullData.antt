-- ===== src/UpdateSink/FullData.antt =====
-- Init of the sink: the graph of references that it computes, and the flag change events.
use mathlib.Core.Logic.Iff
use mathlib.Core.Path.{subst}
use go_server_sdk.Prelude.{
  ℕ, String, Bool, true, false, Option, none, some, List, [], ◌≡◌, refl, ap, ◌∙◌, has_key, if-elim,
  ◌↔◌, sym, lookup, or_else, string_eq,
}
use go_server_sdk.Types.{
  DataKind, kind_eq, features, segments, ItemDescriptor, Collection, DataStore,
}
use go_server_sdk.MemoryStore.View.{View}
use go_server_sdk.MemoryStore.Contents.{basis_view}
use go_server_sdk.Toposort.{Vertex, vertex_eq, LdModel, MapOrder, sort}
use go_server_sdk.Dependencies.{DependencyTracker, neighbors_of}
use go_server_sdk.Dependencies.Affected.{IsClosed}
use go_server_sdk.Dependencies.Graph.{IsMirrored, reset-IsMirrored}
use go_server_sdk.UpdateSink.{
  UpdateSink, DataMap, send_change_events, maybe_update_error, init, announce_changes,
  old_data_for_listeners, query_old_data, all_data_kinds, full_data_set_to_map,
  update_dependency_tracker_from_full_data_set, compute_changed_items_for_full_data_set,
}
use go_server_sdk.UpdateSink.Changes.{
  Differs, IsChangedItem, compute_changed_items_for_full_data_set-least,
}
use go_server_sdk.UpdateSink.Effects.{told, send_change_events_lem, stored}
use go_server_sdk.UpdateSink.Graph.{
  refers_in, track_collections-IsMirrored, track_collections-refers,
}
use go_server_sdk.UpdateSink.Held.{held, query_old_data-held, full_data_set_to_map_lem}

module _ {A S : Type 0} (model : LdModel A) (order : MapOrder) (store : DataStore A S) where
  -- The sink after the query of the old data.
  abbrev pub queried : UpdateSink S → UpdateSink S
  queried d = (old_data_for_listeners model order store d).1

  queried-tracker : (d : UpdateSink S) → (queried d).dependency_tracker ≡ d.dependency_tracker
  unfolding old_data_for_listeners
  queried-tracker d =
      if-elim
        (λ (x : Option (DataMap A) × UpdateSink S). x.1.dependency_tracker ≡ d.dependency_tracker)
        d.has_listeners _ _ (λ _. refl) (λ _. refl)

  -- The sink when Init has renewed the graph.
  abbrev renewed : S → List (Collection A) → UpdateSink S → UpdateSink S
  renewed s all_data d =
      update_dependency_tracker_from_full_data_set model order store all_data
        (stored model order store s (queried d))

  init_accepted :
      (now : ℕ) (all_data : List (Collection A)) (d : UpdateSink S) (s : S)
      → store.init (sort model order all_data) (queried d).store ≡ (none, s)
      → init model order store now all_data d ≡ (
        true,
        announce_changes model order store
            (old_data_for_listeners model order store d).0
            all_data
            (renewed s all_data d),
      )
  unfolding init maybe_update_error
  init_accepted now all_data d s h = rw h refl

  announce_changes-tracker :
      (old : Option (DataMap A)) (all_data : List (Collection A)) (d : UpdateSink S)
      → (announce_changes model order store old all_data d).dependency_tracker
        ≡ d.dependency_tracker
  unfolding announce_changes send_change_events
  announce_changes-tracker none all_data d = refl
  announce_changes-tracker (some old) all_data d = refl

  -- After an Init that the store has accepted, the two directions of the graph are in step.
  pub init-IsMirrored :
      (now : ℕ) (all_data : List (Collection A)) (d : UpdateSink S) (s : S)
      → store.init (sort model order all_data) (queried d).store ≡ (none, s)
      → IsMirrored (init model order store now all_data d).1.dependency_tracker
  unfolding update_dependency_tracker_from_full_data_set
  init-IsMirrored now all_data d s h =
      rw
        (
          init_accepted now all_data d s h,
          announce_changes-tracker (old_data_for_listeners model order store d).0 all_data
              (renewed s all_data d),
        )
        (track_collections-IsMirrored model order store all_data _
          (reset-IsMirrored (queried d).dependency_tracker))

  -- The condition for an event for the flag `k`.
  abbrev pub IsAffected : DependencyTracker → DataMap A → DataMap A → String → Type 0
  IsAffected t old new k =
      (c : Vertex → Bool)
      → IsClosed t.dependencies_to c
      → ((key : String) → IsChangedItem old new features key → c (features, key) ≡ true)
      → ((key : String) → IsChangedItem old new segments key → c (segments, key) ≡ true)
      → c (features, k) ≡ true

  compute-IsAffected :
      (t : DependencyTracker) (old new : DataMap A) (k : String)
      → (has_key (features, k) (compute_changed_items_for_full_data_set order t old new) ≡ true)
        ↔ IsAffected t old new k
  compute-IsAffected t old new k =
      let least = compute_changed_items_for_full_data_set-least order t old new in
      let changed = compute_changed_items_for_full_data_set order t old new in
      let roots = (least.1 (λ x. has_key x changed) least.0).0 (λ x h. h) in
      (
        (λ h c cl flags segs. (least.1 c cl).1 (flags, segs) (features, k) h),
        (λ f. f (λ x. has_key x changed) least.0 roots.0 roots.1),
      )

  announce_changes_lem :
      (old : DataMap A) (all_data : List (Collection A)) (d : UpdateSink S) (k : String)
      → told k d.flag_change_events ≡ false
      → (told k (announce_changes model order store (some old) all_data d).flag_change_events
          ≡ true)
        ↔ IsAffected d.dependency_tracker old (full_data_set_to_map all_data) k
  unfolding announce_changes
  announce_changes_lem old all_data d k t =
      let new = full_data_set_to_map all_data in
      let changed = compute_changed_items_for_full_data_set order d.dependency_tracker old new in
      rw (send_change_events_lem model order store k changed d, t)
        (compute-IsAffected d.dependency_tracker old new k)

  queried-events : (d : UpdateSink S) → (queried d).flag_change_events ≡ d.flag_change_events
  unfolding old_data_for_listeners
  queried-events d =
      if-elim
        (λ (x : Option (DataMap A) × UpdateSink S). x.1.flag_change_events ≡ d.flag_change_events)
        d.has_listeners _ _ (λ _. refl) (λ _. refl)

  queried-told :
      (d : UpdateSink S) (k : String)
      → told k d.flag_change_events ≡ false
      → told k (queried d).flag_change_events ≡ false
  queried-told d k t = ap (told k) (queried-events d) ∙ t

  queried-data :
      (d : UpdateSink S)
      → d.has_listeners ≡ true
      → (old_data_for_listeners model order store d).0
        ≡ some (query_old_data model order store all_data_kinds [] d.store).0
  unfolding old_data_for_listeners
  queried-data d l = rw l refl

  -- Every set holds the flag `k` that no reference leaves and that holds each flag and segment that differs.
  abbrev pub IsTold : (Vertex → Vertex → Bool) → View A → View A → String → Type 0
  IsTold refers old new k =
      (c : Vertex → Bool)
      → ((v w : Vertex) → c v ≡ true → refers w v ≡ true → c w ≡ true)
      → ((key : String) → Differs (old features key) (new features key) → c (features, key) ≡ true)
      → ((key : String) → Differs (old segments key) (new segments key) → c (segments, key) ≡ true)
      → c (features, k) ≡ true

  same_Differs :
      (old new old' new' : Option (ItemDescriptor A))
      → old ≡ old'
      → new ≡ new'
      → Differs old new
      → Differs old' new'
  same_Differs old new old' new' e f d =
      subst (λ o. Differs o new') e (subst (λ n. Differs old n) f d)

  IsAffected-IsTold :
      (t : DependencyTracker) (old new : DataMap A) (refers : Vertex → Vertex → Bool)
      (before after : View A) (k : String)
      → ((v w : Vertex) → has_key w (neighbors_of t.dependencies_to v) ≡ refers w v)
      → ((key : String)
          → (lookup key (or_else (lookup features old) []) ≡ before features key)
            × (lookup key (or_else (lookup segments old) []) ≡ before segments key))
      → ((kind : DataKind) (key : String)
          → lookup key (or_else (lookup kind new) []) ≡ after kind key)
      → IsAffected t old new k ↔ IsTold refers before after k
  IsAffected-IsTold t old new refers before after k edge olds news = (
    (λ h c cl flags segs.
        h c (λ v w m e. cl v w m (sym (edge v w) ∙ e))
          (λ key d. flags key (same_Differs _ _ _ _ (olds key).0 (news features key) d))
          (λ key d. segs key (same_Differs _ _ _ _ (olds key).1 (news segments key) d))),
    (λ h c cl flags segs.
        h c (λ v w m e. cl v w m (edge v w ∙ e))
          (λ key d. flags key (same_Differs _ _ _ _ (sym (olds key).0) (sym (news features key)) d))
          (λ key d.
            segs key (same_Differs _ _ _ _ (sym (olds key).1) (sym (news segments key)) d))),
  )

  -- After an Init that the store has accepted, with listeners, a flag that there was no event for
  -- has one just when every set that no reference of the data set leaves, and that holds each flag
  -- and segment that is new, gone, or of a higher version than the store listed, holds the flag. The graph
  -- that is left has the references of the data set, and its two directions are in step.
  pub init_tells :
      (now : ℕ) (all_data : List (Collection A)) (d : UpdateSink S) (s : S) (k : String)
      → store.init (sort model order all_data) (queried d).store ≡ (none, s)
      → d.has_listeners ≡ true
      → told k d.flag_change_events ≡ false
      → ((told k (init model order store now all_data d).1.flag_change_events ≡ true)
          ↔ IsTold
              (refers_in model order store all_data)
              (held model order store d.store)
              (basis_view all_data)
              k)
        × ((v w : Vertex)
            → has_key w (
                neighbors_of
                  (init model order store now all_data d).1.dependency_tracker.dependencies_to
                  v)
              ≡ refers_in model order store all_data w v)
        × IsMirrored (init model order store now all_data d).1.dependency_tracker
  unfolding update_dependency_tracker_from_full_data_set
  init_tells now all_data d s k h l t =
      let old = (query_old_data model order store all_data_kinds [] d.store).0 in
      let edge =
        track_collections-refers model order store all_data (queried d).dependency_tracker in
      let affected =
        IsAffected-IsTold (renewed s all_data d).dependency_tracker old
          (full_data_set_to_map all_data) (refers_in model order store all_data)
          (held model order store d.store) (basis_view all_data) k edge
          (query_old_data-held model order store d.store)
          (full_data_set_to_map_lem model order store all_data) in
      rw
        (
          init_accepted now all_data d s h,
          announce_changes-tracker (old_data_for_listeners model order store d).0 all_data
              (renewed s all_data d),
          queried-data d l,
        )
        (
          Iff.trans
              (announce_changes_lem old all_data (renewed s all_data d) k (queried-told d k t))
              affected,
          edge,
          track_collections-IsMirrored model order store all_data _
              (reset-IsMirrored (queried d).dependency_tracker),
        )
