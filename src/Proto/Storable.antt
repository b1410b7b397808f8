-- ===== src/Proto/Storable.antt =====
-- ToStorableItems of internal/fdv2proto/event_to_storable_item.go against a description of each event.
use go_server_sdk.Prelude.{
  string_eq, none, List, [], ◌∷◌, ◌++◌, ◌==◌, if◌then◌else◌, ◌≡◌, ◌≢◌, arith,
}
use mathlib.Core.List.{append_assoc, append-nil}
use go_server_sdk.Types.{features, segments, KeyedItemDescriptor}
use go_server_sdk.Proto.{
  Event, put_object, delete_object, flag_kind, segment_kind, ObjectKind, FlagsAndSegments,
  store_event, store_events, to_storable_items,
}

flag-ne-segment : flag_kind ≢ segment_kind
flag-ne-segment e = cc ((string_eq.beq_iff flag_kind segment_kind).1 e)

module _ {A : Type 0} where
  -- What one event stores under an object kind: a put stores its object, a delete a tombstone.
  abbrev pub stored : ObjectKind → Event A → List (KeyedItemDescriptor A)
  stored kind (put_object e) =
      if e.kind == kind then (e.key, record { version = e.version; item = e.object }) ∷ [] else []
  stored kind (delete_object e) =
      if e.kind == kind then (e.key, record { version = e.version; item = none }) ∷ [] else []
  stored kind _ = []

  abbrev pub all_stored : ObjectKind → List (Event A) → List (KeyedItemDescriptor A)
  all_stored kind [] = []
  all_stored kind (e ∷ es) = stored kind e ++ all_stored kind es

  store_event_lem :
      (e : Event A) (acc : FlagsAndSegments A)
      → store_event e acc ≡ (acc.0 ++ stored flag_kind e, acc.1 ++ stored segment_kind e)
  unfolding store_event
  store_event_lem (put_object e) acc = ground (
    arith,
    append-nil acc.0,
    append-nil acc.1,
    flag-ne-segment,
    string_eq.beq_iff e.kind flag_kind,
    string_eq.beq_iff e.kind segment_kind,
  )
  store_event_lem (delete_object e) acc = ground (
    arith,
    append-nil acc.0,
    append-nil acc.1,
    flag-ne-segment,
    string_eq.beq_iff e.kind flag_kind,
    string_eq.beq_iff e.kind segment_kind,
  )
  store_event_lem _ acc = ground (arith, append-nil acc.0, append-nil acc.1)

  store_events_lem :
      (es : List (Event A)) (acc : FlagsAndSegments A)
      → store_events es acc
        ≡ (acc.0 ++ all_stored flag_kind es, acc.1 ++ all_stored segment_kind es)
  unfolding store_events
  store_events_lem [] acc = simp append-nil
  store_events_lem (e ∷ es) acc = rw (store_event_lem e acc) (
      rw (store_events_lem es (acc.0 ++ stored flag_kind e, acc.1 ++ stored segment_kind e))
        (simp append_assoc))

  -- The result is one collection of the flags and one of the segments, in the order of the events;
  -- every other event, and every other kind of object, is left out.
  pub to_storable_items_lem :
      (es : List (Event A))
      → to_storable_items es
        ≡ record { kind = features; items = all_stored flag_kind es }
          ∷ record { kind = segments; items = all_stored segment_kind es }
          ∷ []
  unfolding to_storable_items
  to_storable_items_lem es = rw (store_events_lem es ([], []))
