-- ===== src/MemoryStore/Contents.antt =====
-- The whole contents of the memory store: SetBasis, and the listings of GetAll.
use mathlib.Core.List.{Mem, Perm}
use mathlib.Core.List.Perm
use mathlib.Core.Logic.{∥∥₁_elim}
use go_server_sdk.Prelude.{
  String, string_eq, Option, none, some, List, [], ◌∷◌, if◌then◌else◌, Bool-cases, Option-cases,
  inl, inr, ◌≡◌, refl, arith, ◌↔◌, Map, lookup, insert, insert_all, last_value, lookup-insert,
  lookup-insert_all, lookup-mem, mem-lookup, NodupKeys, insert-NodupKeys, insert_all-NodupKeys,
  map_option, first_some, or_else, has_key,
}
use go_server_sdk.Types.{DataKind, kind_eq, ItemDescriptor, KeyedItemDescriptor, Collection}
use go_server_sdk.MemoryStore.{
  Data, Store, UpdatedMap, upsert, mark_updated, apply_items, apply_collections, apply_delta,
  collect, set_basis, find, should_update, upsert_existing, get_all, new,
}
use go_server_sdk.MemoryStore.View.{View, view}

module _ {A : Type 0} where
  -- The items of the last collection that a data set has for a kind.
  abbrev pub last_items : DataKind → List (Collection A) → Option (List (KeyedItemDescriptor A))
  last_items k [] = none
  last_items k (c ∷ cs) =
      first_some (last_items k cs) (if kind_eq.beq c.kind k then some c.items else none)

  -- What a data set says of one item.
  abbrev pub basis_view : List (Collection A) → View A
  basis_view cs k j = last_value j (or_else (last_items k cs) [])

  lookup-collect :
      (k : DataKind) (cs : List (Collection A)) (d : Data A)
      → lookup k (collect cs d)
        ≡ first_some (map_option (λ items. insert_all items []) (last_items k cs)) (lookup k d)
  unfolding collect
  lookup-collect k [] d = refl
  lookup-collect k (c ∷ cs) d = ground (
    arith,
    lookup-collect k cs (insert c.kind (insert_all c.items []) d),
    lookup-insert c.kind k (insert_all c.items []) d,
  )

  -- After SetBasis the store holds exactly what the data set says, whatever it held before.
  pub view-set_basis :
      (cs : List (Collection A)) (s : Store A) (k : DataKind) (j : String)
      → view (set_basis cs s) k j ≡ basis_view cs k j
  unfolding set_basis find lookup
  view-set_basis cs s k j = elim (Option-cases (last_items k cs)) [
    | inl absent ↦ ground (arith, absent, lookup-collect k cs [])
    | inr (items, here) ↦ ground (arith, here, lookup-collect k cs [], lookup-insert_all j items [])
  ]

  abbrev AllNodup : Data A → Type 0
  AllNodup [] = Unit
  AllNodup ((k, coll) ∷ d) = NodupKeys coll × AllNodup d

  -- No kind occurs twice in a store, and no key twice in a kind.
  abbrev pub IsValid : Store A → Type 0
  IsValid s = NodupKeys s.data_map × AllNodup s.data_map

  AllNodup-insert :
      (k : DataKind) (coll : Map String (ItemDescriptor A)) (d : Data A)
      → NodupKeys coll
      → AllNodup d
      → AllNodup (insert k coll d)
  unfolding insert
  AllNodup-insert k coll [] h n = (h, tt)
  AllNodup-insert k coll ((i, c) ∷ d) h n = elim (Bool-cases (kind_eq.beq i k)) [
    | inl same ↦ rw same (h, n.1)
    | inr other ↦ rw other (n.0, AllNodup-insert k coll d h n.1)
  ]

  pub NodupKeys-lookup :
      (k : DataKind) (d : Data A) → AllNodup d → NodupKeys (or_else (lookup k d) [])
  unfolding lookup
  NodupKeys-lookup k [] n = tt
  NodupKeys-lookup k ((i, c) ∷ d) n = elim (Bool-cases (kind_eq.beq i k)) [
    | inl same ↦ rw same n.0
    | inr other ↦ rw other (NodupKeys-lookup k d n.1)
  ]

  collect-IsValid :
      (cs : List (Collection A)) (d : Data A)
      → NodupKeys d × AllNodup d
      → NodupKeys (collect cs d) × AllNodup (collect cs d)
  unfolding collect
  collect-IsValid [] d h = h
  collect-IsValid (c ∷ cs) d h =
      let coll = insert_all c.items [] in
      collect-IsValid cs (insert c.kind coll d) (
        insert-NodupKeys c.kind coll d h.0,
        AllNodup-insert c.kind coll d (insert_all-NodupKeys c.items [] tt) h.1,
      )

  pub set_basis-IsValid : (cs : List (Collection A)) (s : Store A) → IsValid (set_basis cs s)
  unfolding set_basis
  set_basis-IsValid cs s = collect-IsValid cs [] (tt, tt)

  upsert_existing-IsValid :
      (kind : DataKind) (key : String) (item : ItemDescriptor A)
      (o : Option (Map String (ItemDescriptor A))) (d : Data A)
      → NodupKeys (or_else o [])
      → NodupKeys d × AllNodup d
      → NodupKeys (upsert_existing kind key item o d).0
        × AllNodup (upsert_existing kind key item o d).0
  unfolding upsert_existing has_key
  upsert_existing-IsValid kind key item none d n h =
      (insert-NodupKeys kind _ d h.0, AllNodup-insert kind ((key, item) ∷ []) d (refl, tt) h.1)
  upsert_existing-IsValid kind key item (some coll) d n h =
      elim (Bool-cases (should_update (lookup key coll) item)) [
        | inl new ↦ rw new (
          insert-NodupKeys kind _ d h.0,
          AllNodup-insert kind (insert key item coll) d (insert-NodupKeys key item coll n) h.1,
        )
        | inr old ↦ rw old h
      ]

  pub upsert-IsValid :
      (kind : DataKind) (key : String) (item : ItemDescriptor A) (s : Store A)
      → IsValid s
      → IsValid (upsert kind key item s).0
  unfolding upsert
  upsert-IsValid kind key item s h =
      upsert_existing-IsValid kind key item (lookup kind s.data_map) s.data_map
        (NodupKeys-lookup kind s.data_map h.1) h

  apply_items-IsValid :
      (kind : DataKind) (items : List (KeyedItemDescriptor A)) (s : Store A) (m : UpdatedMap)
      → IsValid s
      → IsValid (apply_items kind items (s, m)).0
  unfolding apply_items
  apply_items-IsValid kind [] s m h = h
  apply_items-IsValid kind ((key, item) ∷ items) s m h =
      let (s', updated) = upsert kind key item s in
      apply_items-IsValid kind items s' (mark_updated kind key updated m)
        (upsert-IsValid kind key item s h)

  apply_collections-IsValid :
      (cs : List (Collection A)) (acc : Store A × UpdatedMap)
      → IsValid acc.0
      → IsValid (apply_collections cs acc).0
  unfolding apply_collections
  apply_collections-IsValid [] acc h = h
  apply_collections-IsValid (c ∷ cs) acc h =
      apply_collections-IsValid cs (apply_items c.kind c.items acc)
        (apply_items-IsValid c.kind c.items acc.0 acc.1 h)

  -- If no kind occurs twice in a store, and no key twice in a kind, so it is after a delta.
  pub apply_delta-IsValid :
      (cs : List (Collection A)) (s : Store A) → IsValid s → IsValid (apply_delta cs s).0
  unfolding apply_delta
  apply_delta-IsValid cs s h = apply_collections-IsValid cs (s, []) h

  -- For a payload type that is a set and a store with unique kinds and keys, GetAll lists exactly the
  -- items that Get finds, in whatever order Go ranges over the map.
  pub mem-get_all :
      IsSet A
      → (order : List (KeyedItemDescriptor A) → List (KeyedItemDescriptor A))
      → ((l : List (KeyedItemDescriptor A)) → Perm (order l) l)
      → (s : Store A) (kind : DataKind) (key : String) (item : ItemDescriptor A) → IsValid s
      → Mem (key, item) (get_all order kind s) ↔ (view s kind key ≡ some item)
  unfolding get_all find
  mem-get_all a_set order any s kind key item h =
      let coll = or_else (lookup kind s.data_map) [] in
      (
        λ m.
            ∥∥₁_elim (Perm.subset (any coll) (key, item) m) (read_set _ _)
              (λ here. mem-lookup key item coll (NodupKeys-lookup kind s.data_map h.1) here),
        λ f. Perm.subset (Perm.symm (any coll)) (key, item) ∣ lookup-mem key item coll f ∣₁,
      )
    where
      read_set : IsSet (Option (ItemDescriptor A))
      read_set = hlevel a_set

pub new-IsValid : (A : Type 0) → IsValid (new {A = A})
unfolding new
new-IsValid A = (tt, tt)
