-- ===== src/MemoryStore.antt =====
-- internal/memorystorev2/memory_store.go. A Store is a record, and a method returns the new one.
-- Each method holds the store's lock from its first access to its last, so it is one step.
-- The loggers only write text and are left out.
pub mod View
pub mod Contents
pub mod Delta
use go_server_sdk.Prelude.{
  String, Bool, true, false, Option, none, some, List, [], ◌∷◌, Map, lookup, insert, insert_all,
  or_else, if◌then◌else◌, leb_ℤ, map, string_eq,
}
use go_server_sdk.Types.{
  DataKind, kind_eq, ItemDescriptor, not_found, KeyedItemDescriptor, Collection, Error,
}

abbrev pub Data : Type 0 → Type 0
Data A = Map DataKind (Map String (ItemDescriptor A))

pub record Store (A : Type 0) : Type 0 where
  pub data_map : Data A
  pub initialized : Bool

abbrev pub UpdatedMap : Type 0
UpdatedMap = Map DataKind (Map String Bool)

-- The two writes to updatedMap in ApplyDelta.
unfoldable pub mark_updated : DataKind → String → Bool → UpdatedMap → UpdatedMap
mark_updated kind key updated m = insert kind (insert key updated (or_else (lookup kind m) [])) m

module _ {A : Type 0} where
  unfoldable pub new : Store A
  new = record { data_map = []; initialized = false }

  -- The loop of SetBasis.
  unfoldable pub collect : List (Collection A) → Data A → Data A
  collect [] d = d
  collect (c ∷ cs) d = collect cs (insert c.kind (insert_all c.items []) d)

  unfoldable pub set_basis : List (Collection A) → Store A → Store A
  set_basis all_data s = record { data_map = collect all_data []; initialized = true }

  -- Whether an upsert writes: there is no such item, or an older one.
  abbrev pub should_update : Option (ItemDescriptor A) → ItemDescriptor A → Bool
  should_update none new_item = true
  should_update (some item) new_item = if leb_ℤ new_item.version item.version then false else true

  unfoldable pub upsert_existing :
      DataKind
      → String
      → ItemDescriptor A
      → Option (Map String (ItemDescriptor A))
      → Data A
      → Data A × Bool
  upsert_existing kind key new_item none d = (insert kind ((key, new_item) ∷ []) d, true)
  upsert_existing kind key new_item (some coll) d =
      if should_update (lookup key coll) new_item
      then (insert kind (insert key new_item coll) d, true)
      else (d, false)

  unfoldable pub upsert : DataKind → String → ItemDescriptor A → Store A → Store A × Bool
  unfolding upsert_existing
  upsert kind key new_item s =
      let (d, updated) = upsert_existing kind key new_item (lookup kind s.data_map) s.data_map in
      (record s { data_map = d }, updated)

  -- The inner and the outer loop of ApplyDelta.
  unfoldable pub apply_items :
      DataKind → List (KeyedItemDescriptor A) → Store A × UpdatedMap → Store A × UpdatedMap
  apply_items kind [] acc = acc
  apply_items kind ((key, item) ∷ items) (s, m) =
      let (s', updated) = upsert kind key item s in
      apply_items kind items (s', mark_updated kind key updated m)

  unfoldable pub apply_collections :
      List (Collection A) → Store A × UpdatedMap → Store A × UpdatedMap
  unfolding apply_items
  apply_collections [] acc = acc
  apply_collections (c ∷ cs) acc = apply_collections cs (apply_items c.kind c.items acc)

  unfoldable pub apply_delta : List (Collection A) → Store A → Store A × UpdatedMap
  unfolding apply_collections
  apply_delta all_data s = apply_collections all_data (s, [])

  -- The item under a kind and a key, as the two map reads of Get find it.
  unfoldable pub find : DataKind → String → Data A → Option (ItemDescriptor A)
  find kind key d = lookup key (or_else (lookup kind d) [])

  unfoldable pub get : DataKind → String → Store A → ItemDescriptor A × Error
  unfolding find
  get kind key s = (or_else (find kind key s.data_map) not_found, none)

  pub is_initialized : Store A → Bool
  is_initialized s = s.initialized

  -- Go leaves the order of a range over a map open: `order` and `kind_order` stand for it.
  module _ (order : List (KeyedItemDescriptor A) → List (KeyedItemDescriptor A)) where
    unfoldable pub get_all : DataKind → Store A → List (KeyedItemDescriptor A)
    get_all kind s = order (or_else (lookup kind s.data_map) [])

    unfoldable pub get_all_kinds : (List DataKind → List DataKind) → Store A → List (Collection A)
    unfolding get_all
    get_all_kinds kind_order s =
        map (λ kind. record { kind = kind; items = get_all kind s })
          (kind_order (map (λ entry. entry.0) s.data_map))
