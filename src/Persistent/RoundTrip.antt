-- ===== src/Persistent/RoundTrip.antt =====
-- Items that are serialized for a persistent store, and read back.
use go_server_sdk.Prelude.{
  string_eq, ℤ, true, false, none, some, ◌⊎◌, inl, inr, ◌≡◌, arith, Option-cases,
}
use go_server_sdk.Types.{DataKind, features, segments, other, ItemDescriptor}
use go_server_sdk.Persistent.Codec.{
  Serializer, ItemModel, serialize_item, maybe_item, deserialize_item, data_kinds, serialize,
  with_version, deserialize,
}

-- What the SDK relies on of the evaluation engine's JSON: what is marshaled is read back.
pub record Faithful {A T B : Type 0} (model : ItemModel A T B) : Type 0 where
  pub reads_back : (t : T) (b : B) → model.marshal t ≡ some b → model.unmarshal b ≡ inl t
  pub rewraps : (a : A) (t : T) → model.unwrap a ≡ some t → model.wrap t ≡ a
  pub version_of_placeholder : (v : ℤ) → model.item_version (model.placeholder v) ≡ v
  pub deleted_placeholder : (v : ℤ) → model.is_deleted (model.placeholder v) ≡ true

-- A descriptor of a payload of the kind that is not deleted and has the descriptor's version.
pub record Describes {A T B : Type 0} (model : ItemModel A T B) (item : ItemDescriptor A) (t : T)
    : Type 0 where
  pub payload : A
  pub present : item.item ≡ some payload
  pub unwraps : model.unwrap payload ≡ some t
  pub live : model.is_deleted t ≡ false
  pub same_version : model.item_version t ≡ item.version

-- A tombstone, or a descriptor of such a payload.
abbrev pub IsItem : {A T B : Type 0} → ItemModel A T B → ItemDescriptor A → Type 0
IsItem {T = T} model item = (item.item ≡ none) ⊎ ((t : T) × Describes model item t)

module _ {A T B : Type 0} (model : ItemModel A T B) (h : Faithful model) where
  -- The kind's own round trip.
  deserialize_item-serialize_item :
      (item : ItemDescriptor A) (b : B)
      → IsItem model item
      → serialize_item model item ≡ some b
      → deserialize_item model b ≡ (item, none)
  unfolding serialize_item deserialize_item maybe_item
  deserialize_item-serialize_item item b (inl deleted) s =
      let v = item.version in
      let back : model.unmarshal b ≡ inl (model.placeholder v) =
        h.reads_back (model.placeholder v) b (rw deleted at s) in
      ground (arith, back, deleted, h.version_of_placeholder v, h.deleted_placeholder v)
  deserialize_item-serialize_item item b (inr (t, d)) s =
      let back : model.unmarshal b ≡ inl t =
        h.reads_back t b (ground (arith, s, d.present, d.unwraps)) in
      ground (arith, back, d.present, d.live, d.same_version, h.rewraps d.payload t d.unwraps)

module _ {A B : Type 0} (kinds : Serializer A B) where
  -- The wrapper's round trip, from the kind's.
  deserialize-serialize :
      (kind : DataKind) (item : ItemDescriptor A) (b : B)
      → kinds.serialize_kind kind item ≡ some b
      → kinds.deserialize_kind kind b ≡ (item, none)
      → deserialize kinds kind (serialize kinds kind item) ≡ (item, none)
  unfolding serialize deserialize with_version
  deserialize-serialize kind item b s d = elim (Option-cases item.item) [
    | inl gone ↦ ground (arith, s, gone)
    | inr (a, there) ↦ ground (arith, s, d, there)
  ]

module _ {A F S B : Type 0} (flags : ItemModel A F B) (segs : ItemModel A S B)
    (others : Serializer A B) (flag_law : Faithful flags) (segment_law : Faithful segs) where
  -- What is an item of one of the SDK's kinds.
  abbrev pub IsItemOf : DataKind → ItemDescriptor A → Type 0
  IsItemOf features item = IsItem flags item
  IsItemOf segments item = IsItem segs item
  IsItemOf (other _ _) item = ⊥

  -- An item of one of the SDK's kinds, a tombstone included, that is serialized without an error is
  -- read back as it was, if the evaluation engine reads back what it marshals.
  pub sdk-deserialize-serialize :
      (kind : DataKind) (item : ItemDescriptor A) (b : B)
      → IsItemOf kind item
      → (serialize (data_kinds flags segs others) kind item).serialized_item ≡ some b
      → deserialize
          (data_kinds flags segs others)
          kind
          (serialize (data_kinds flags segs others) kind item)
        ≡ (item, none)
  unfolding serialize
  sdk-deserialize-serialize features item b i s =
      deserialize-serialize (data_kinds flags segs others) features item b s
        (deserialize_item-serialize_item flags flag_law item b i s)
  sdk-deserialize-serialize segments item b i s =
      deserialize-serialize (data_kinds flags segs others) segments item b s
        (deserialize_item-serialize_item segs segment_law item b i s)
  sdk-deserialize-serialize (other _ _) item b i s = elim i [ ]
