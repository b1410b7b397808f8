-- ===== src/Proto.antt =====
-- internal/fdv2proto: the events of the FDv2 protocol, selectors, and ToStorableItems.
pub mod Storable
use go_server_sdk.Prelude.{
  String, string_eq, ℤ, Bool, true, false, Option, none, some, List, [], ◌∷◌, ◌++◌, ◌⊎◌, inl, inr,
  ◌==◌, if◌then◌else◌,
}
use go_server_sdk.Types.{
  DataKind, features, segments, ItemDescriptor, KeyedItemDescriptor, Collection,
}

-- IntentCode, EventName and ObjectKind are string types.
abbrev pub IntentCode : Type 0
IntentCode = String

abbrev pub EventName : Type 0
EventName = String

abbrev pub ObjectKind : Type 0
ObjectKind = String

abbrev pub flag_kind : ObjectKind
flag_kind = "flag"

abbrev pub segment_kind : ObjectKind
segment_kind = "segment"

pub record ErrUnknownKind : Type 0 where
  pub kind : ObjectKind

pub to_fdv1 : ObjectKind → DataKind ⊎ ErrUnknownKind
to_fdv1 o =
    if o == flag_kind
    then inl features
    else if o == segment_kind
    then inl segments
    else inr (record { kind = o })

pub record Payload : Type 0 where
  pub id : String
  pub target : ℤ
  pub code : IntentCode
  pub reason : String

pub record ServerIntent : Type 0 where
  pub payloads : List Payload

pub record PayloadTransferred : Type 0 where
  pub state : String
  pub version : ℤ

pub record DeleteObject : Type 0 where
  pub version : ℤ
  pub kind : ObjectKind
  pub key : String

pub record PutObject (A : Type 0) : Type 0 where
  pub version : ℤ
  pub kind : ObjectKind
  pub key : String
  pub object : Option A

pub record ErrorEvent : Type 0 where
  pub payload_id : String
  pub reason : String

pub record Goodbye : Type 0 where
  pub reason : String
  pub silent : Bool
  pub catastrophe : Bool

-- The interface Event, by the types that implement it.
pub data Event (A : Type 0) : Type 0 where
  server_intent : ServerIntent → Event A
  payload_transferred : PayloadTransferred → Event A
  delete_object : DeleteObject → Event A
  put_object : PutObject A → Event A
  error_event : ErrorEvent → Event A
  goodbye : Goodbye → Event A

pub event_name : {A : Type 0} → Event A → EventName
event_name (server_intent _) = "server-intent"
event_name (payload_transferred _) = "payload-transferred"
event_name (delete_object _) = "delete-object"
event_name (put_object _) = "put-object"
event_name (error_event _) = "error"
event_name (goodbye _) = "goodbye"

pub record Selector : Type 0 where
  pub state : String
  pub version : ℤ

-- A *Selector may be nil.
abbrev pub no_selector : Option Selector
no_selector = none

abbrev pub new_selector : String → ℤ → Option Selector
new_selector state version = some (record { state = state; version = version })

abbrev pub is_set : Option Selector → Bool
is_set none = false
is_set (some _) = true

-- The items of the two collections that ToStorableItems builds.
abbrev pub FlagsAndSegments : Type 0 → Type 0
FlagsAndSegments A = List (KeyedItemDescriptor A) × List (KeyedItemDescriptor A)

module _ {A : Type 0} where
  append_item : ObjectKind → KeyedItemDescriptor A → FlagsAndSegments A → FlagsAndSegments A
  append_item kind item (flags, segs) =
      if kind == flag_kind
      then (flags ++ item ∷ [], segs)
      else if kind == segment_kind
      then (flags, segs ++ item ∷ [])
      else (flags, segs)

  -- The body of the loop over the events.
  store_event : Event A → FlagsAndSegments A → FlagsAndSegments A
  unfolding append_item
  store_event (put_object e) acc =
      append_item e.kind (e.key, record { version = e.version; item = e.object }) acc
  store_event (delete_object e) acc =
      append_item e.kind (e.key, record { version = e.version; item = none }) acc
  store_event _ acc = acc

  store_events : List (Event A) → FlagsAndSegments A → FlagsAndSegments A
  unfolding store_event
  store_events [] acc = acc
  store_events (e ∷ es) acc = store_events es (store_event e acc)

  unfoldable pub to_storable_items : List (Event A) → List (Collection A)
  unfolding store_events
  to_storable_items events =
      let (flags, segs) = store_events events ([], []) in
      record { kind = features; items = flags } ∷ record { kind = segments; items = segs } ∷ []
