-- ===== src/Persistent/Codec.antt =====
-- The serialized form of items: subsystems/ldstoretypes, the DataKind methods Serialize and
-- Deserialize of internal/datakinds/data_kinds_impl.go, and serialize and deserialize of
-- internal/datastore/persistent_data_store_wrapper.go. A non-nil byte slice is a value of a type `B`.
use go_server_sdk.Prelude.{
  String, ℤ, Bool, not, ◌||◌, Option, none, some, is_some, List, [], ◌∷◌, ◌⊎◌, inl, inr,
  if◌then◌else◌, eqb_ℤ, pos,
}
use go_server_sdk.Types.{
  DataKind, features, segments, other, ItemDescriptor, not_found, KeyedItemDescriptor, Error,
}

pub record SerializedItemDescriptor (B : Type 0) : Type 0 where
  pub version : ℤ
  pub deleted : Bool
  pub serialized_item : Option B

abbrev pub KeyedSerializedItemDescriptor : Type 0 → Type 0
KeyedSerializedItemDescriptor B = String × SerializedItemDescriptor B

pub record SerializedCollection (B : Type 0) : Type 0 where
  pub kind : DataKind
  pub items : List (KeyedSerializedItemDescriptor B)

-- The methods Serialize and Deserialize of the data kinds.
pub record Serializer (A B : Type 0) : Type 0 where
  pub serialize_kind : DataKind → ItemDescriptor A → Option B
  pub deserialize_kind : DataKind → B → ItemDescriptor A × Error

-- What the SDK's data kinds use of the evaluation engine's model (ldmodel) for flags, and in the same
-- way for segments: `unwrap` is the type assertion on a payload, `wrap` takes a pointer, and
-- `placeholder` is the deleted item of a version, under the key "$deleted".
pub record ItemModel (A T B : Type 0) : Type 0 where
  pub unwrap : A → Option T
  pub wrap : T → A
  pub placeholder : ℤ → T
  pub item_version : T → ℤ
  pub is_deleted : T → Bool
  pub marshal : T → Option B
  pub unmarshal : B → T ⊎ String

module _ {A T B : Type 0} (model : ItemModel A T B) where
  unfoldable pub serialize_item : ItemDescriptor A → Option B
  serialize_item item = elim item.item [
    | none ↦ model.marshal (model.placeholder item.version)
    | some a ↦ elim (model.unwrap a) [ none ↦ none | some t ↦ model.marshal t ]
  ]

  -- maybeFlag and maybeSegment.
  unfoldable pub maybe_item : T ⊎ String → ItemDescriptor A × Error
  maybe_item (inr err) = (record { version = pos 0; item = none }, some err)
  maybe_item (inl t) = (
    record {
      version = model.item_version t;
      item = if model.is_deleted t then none else some (model.wrap t);
    },
    none,
  )

  unfoldable pub deserialize_item : B → ItemDescriptor A × Error
  unfolding maybe_item
  deserialize_item bytes = maybe_item (model.unmarshal bytes)

-- The SDK's own kinds, with an application's serializer for its kinds.
abbrev pub data_kinds :
    {A F S B : Type 0} → ItemModel A F B → ItemModel A S B → Serializer A B → Serializer A B
data_kinds {A} {F} {S} {B} flags segs others = record {
  serialize_kind = to;
  deserialize_kind = from;
}
  where
    to : DataKind → ItemDescriptor A → Option B
    to features = serialize_item flags
    to segments = serialize_item segs
    to (other i name) = others.serialize_kind (other i name)

    from : DataKind → B → ItemDescriptor A × Error
    from features = deserialize_item flags
    from segments = deserialize_item segs
    from (other i name) = others.deserialize_kind (other i name)

module _ {A B : Type 0} (kinds : Serializer A B) where
  unfoldable pub serialize : DataKind → ItemDescriptor A → SerializedItemDescriptor B
  serialize kind item = record {
    version = item.version;
    deleted = not (is_some item.item);
    serialized_item = kinds.serialize_kind kind item;
  }

  unfoldable pub serialize_all :
      DataKind → List (KeyedItemDescriptor A) → List (KeyedSerializedItemDescriptor B)
  unfolding serialize
  serialize_all kind [] = []
  serialize_all kind ((key, item) ∷ items) = (key, serialize kind item) ∷ serialize_all kind items

  -- The store's version number is trusted, unless it is zero.
  unfoldable pub with_version : ℤ → ItemDescriptor A × Error → ItemDescriptor A × Error
  with_version version (item, some err) = (not_found, some err)
  with_version version (item, none) =
      if eqb_ℤ version (pos 0) || eqb_ℤ version item.version
      then (item, none)
      else (record { version = version; item = item.item }, none)

  unfoldable pub deserialize : DataKind → SerializedItemDescriptor B → ItemDescriptor A × Error
  unfolding with_version
  deserialize kind desc = elim desc.serialized_item [
    | none ↦ (record { version = desc.version; item = none }, none)
    | some bytes ↦
        if desc.deleted
        then (record { version = desc.version; item = none }, none)
        else with_version desc.version (kinds.deserialize_kind kind bytes)
  ]

  -- The loop of getAllAndDeserialize.
  unfoldable pub deserialize_all :
      DataKind → List (KeyedSerializedItemDescriptor B) → List (KeyedItemDescriptor A) × Error
  unfolding deserialize
  deserialize_all kind [] = ([], none)
  deserialize_all kind ((key, desc) ∷ rest) =
      let (item, err) = deserialize kind desc in
      let (items, later) = deserialize_all kind rest in
      elim err [
        | some e ↦ ([], some e)
        | none ↦ elim later [ some e ↦ ([], some e) | none ↦ ((key, item) ∷ items, none) ]
      ]
