-- ===== src/MemoryStore/View.antt =====
-- What the memory store promises: a map from a kind and a key to the newest item that it was given.
use go_server_sdk.Prelude.{
  String, string_eq, Bool, true, ◌&&◌, Option, none, some, ltb_ℤ, refl, [], ◌∷◌, Map, lookup,
  insert, lookup-insert, if◌then◌else◌, Option-cases, inl, inr, ◌≡◌, arith,
}
use go_server_sdk.Types.{DataKind, kind_eq, ItemDescriptor}
use go_server_sdk.MemoryStore.{Data, Store, should_update, find, upsert}

-- The specification of a store's contents.
abbrev pub View : Type 0 → Type 0
View A = DataKind → String → Option (ItemDescriptor A)

abbrev pub same_item : DataKind → String → DataKind → String → Bool
same_item kind key k j = kind_eq.beq kind k && string_eq.beq key j

module _ {A : Type 0} where
  abbrev pub view : Store A → View A
  view s kind key = find kind key s.data_map

  -- An update is newer than what is stored: nothing, or an item of a lower version.
  abbrev pub supersedes : ItemDescriptor A → Option (ItemDescriptor A) → Bool
  supersedes new none = true
  supersedes new (some old) = ltb_ℤ old.version new.version

  -- The newer of a stored item and an update; an update with an equal version is ignored.
  abbrev pub merge : Option (ItemDescriptor A) → ItemDescriptor A → Option (ItemDescriptor A)
  merge old new = if supersedes new old then some new else old

  should_update_lem :
      (o : Option (ItemDescriptor A)) (item : ItemDescriptor A)
      → should_update o item ≡ supersedes item o
  should_update_lem none item = refl
  should_update_lem (some o) item = ground arith

  find-insert :
      (kind k : DataKind) (j : String) (coll : Map String (ItemDescriptor A)) (d : Data A)
      → find k j (insert kind coll d) ≡ (if kind_eq.beq kind k then lookup j coll else find k j d)
  unfolding find
  find-insert kind k j coll d = ground (arith, lookup-insert kind k coll d)

  -- One upsert changes one item at most, and to the newer of the two.
  pub view-upsert :
      (kind : DataKind) (key : String) (item : ItemDescriptor A) (s : Store A) (k : DataKind)
      (j : String)
      → view (upsert kind key item s).0 k j
        ≡ (if same_item kind key k j then merge (view s k j) item else view s k j)
  unfolding upsert find lookup
  view-upsert kind key item s k j = elim (Option-cases (lookup kind s.data_map)) [
    | inl absent ↦ ground (
      arith,
      absent,
      kind_eq.beq_iff kind k,
      string_eq.beq_iff key j,
      lookup-insert kind k ((key, item) ∷ []) s.data_map,
    )
    | inr (coll, here) ↦ ground (
      arith,
      here,
      kind_eq.beq_iff kind k,
      string_eq.beq_iff key j,
      lookup-insert kind k (insert key item coll) s.data_map,
      lookup-insert key j item coll,
      should_update_lem (lookup key coll) item,
    )
  ]

  -- The result says whether the stored item changed.
  pub upsert_updated :
      (kind : DataKind) (key : String) (item : ItemDescriptor A) (s : Store A)
      → (upsert kind key item s).1 ≡ supersedes item (view s kind key)
  unfolding upsert find lookup
  upsert_updated kind key item s = elim (Option-cases (lookup kind s.data_map)) [
    | inl absent ↦ ground (arith, absent)
    | inr (coll, here) ↦ ground (arith, here, should_update_lem (lookup key coll) item)
  ]
