-- ===== src/UpdateSink/Held.antt =====
-- What the sink reads as the old and the new data of an Init.

use go_server_sdk.Prelude.{
  String, Option, none, some, List, [], ◌∷◌, ◌≡◌, refl, arith, lookup, insert, or_else, last_value,
  Option-cases, inl, inr, string_eq, first_some, first_some-none, lookup-insert_all, lookup-insert,
  insert_all, map_option,
}
use go_server_sdk.Types.{
  DataKind, kind_eq, features, segments, other, ItemDescriptor, KeyedItemDescriptor, Collection,
  DataStore, Error,
}
use go_server_sdk.MemoryStore.View.{View}
use go_server_sdk.MemoryStore.Contents.{basis_view, last_items}
use go_server_sdk.Toposort.{vertex_eq, LdModel, MapOrder}
use go_server_sdk.UpdateSink.{
  DataMap, query_old_data, items_map, all_data_kinds, full_data_set_to_map,
  full_data_set_to_map_from,
}

module _ {A S : Type 0} (model : LdModel A) (order : MapOrder) (store : DataStore A S) where
  -- What the store held before under a kind and a key: what it lists for the kind, or nothing on an error.
  abbrev pub held_in :
      (List (KeyedItemDescriptor A) × Error) × S → String → Option (ItemDescriptor A)
  held_in answer key = elim answer.0.1 [ none ↦ last_value key answer.0.0 | some e ↦ none ]

  -- The flags are listed first.
  abbrev pub held : S → View A
  held s features key = held_in (store.get_all features s) key
  held s segments key = held_in (store.get_all segments (store.get_all features s).1) key
  held s (other _ _) key = none

  pub query_old_data-held :
      (s : S) (key : String)
      → (lookup key
            (or_else (lookup features (query_old_data model order store all_data_kinds [] s).0) [])
          ≡ held s features key)
        × (lookup key (
              or_else (lookup segments (query_old_data model order store all_data_kinds [] s).0) [])
            ≡ held s segments key)
  unfolding query_old_data items_map lookup insert
  query_old_data-held s key =
      let flags = store.get_all features s in
      let segs = store.get_all segments flags.1 in
      let read_flags = lookup-insert_all key flags.0.0 [] in
      let read_segs = lookup-insert_all key segs.0.0 [] in
      let whole_flags = first_some-none (last_value key flags.0.0) in
      let whole_segs = first_some-none (last_value key segs.0.0) in
      elim (Option-cases flags.0.1) [
        | inl e ↦ elim (Option-cases segs.0.1) [
          | inl f ↦ (
            ground (arith, e, f, read_flags, whole_flags),
            ground (arith, e, f, read_segs, whole_segs),
          )
          | inr (y, f) ↦ (ground (arith, e, f, read_flags, whole_flags), ground (arith, e, f))
        ]
        | inr (x, e) ↦ elim (Option-cases segs.0.1) [
          | inl f ↦ (ground (arith, e, f), ground (arith, e, f, read_segs, whole_segs))
          | inr (y, f) ↦ (ground (arith, e, f), ground (arith, e, f))
        ]
      ]

  -- The data set as a map reads as the data set.
  full_data_set_to_map_from_lem :
      (k : DataKind) (cs : List (Collection A)) (m : DataMap A)
      → lookup k (full_data_set_to_map_from cs m)
        ≡ first_some (map_option (λ items. insert_all items []) (last_items k cs)) (lookup k m)
  unfolding full_data_set_to_map_from items_map
  full_data_set_to_map_from_lem k [] m = refl
  full_data_set_to_map_from_lem k (c ∷ cs) m = ground (
    arith,
    full_data_set_to_map_from_lem k cs (insert c.kind (insert_all c.items []) m),
    lookup-insert c.kind k (insert_all c.items []) m,
  )

  pub full_data_set_to_map_lem :
      (cs : List (Collection A)) (k : DataKind) (key : String)
      → lookup key (or_else (lookup k (full_data_set_to_map cs)) []) ≡ basis_view cs k key
  unfolding full_data_set_to_map lookup
  full_data_set_to_map_lem cs k key = elim (Option-cases (last_items k cs)) [
    | inl absent ↦ ground (arith, absent, full_data_set_to_map_from_lem k cs [])
    | inr (items, here) ↦ ground (
      arith,
      here,
      full_data_set_to_map_from_lem k cs [],
      lookup-insert_all key items [],
      first_some-none (last_value key items),
    )
  ]
