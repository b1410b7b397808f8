-- ===== src/DataSource/Fdv2Polling.antt =====
-- internal/datasourcev2: the requester of polling_http_request.go after the body is decoded, polling_response.go,
-- and poll of polling_data_source.go.
use go_server_sdk.Prelude.{
  String, string_eq, ℤ, Bool, true, false, Option, none, some, List, [], ◌∷◌, ◌++◌, ◌⊎◌, inl, inr,
  ◌==◌, if◌then◌else◌, map, ◌≡◌, ◌∙◌, ap, arith,
}
use mathlib.Core.List.{append_assoc, append-nil}
use go_server_sdk.Types.{ItemDescriptor}
use go_server_sdk.Proto.{
  Event, put_object, delete_object, DeleteObject, ObjectKind, IntentCode, ServerIntent, Selector,
  no_selector,
}
use go_server_sdk.DataSource.Fdv2.{DataDestination}
use go_server_sdk.DataSource.Polling.{RequestError}

-- An event of the payload, as its parser reads it.
pub data PolledEvent (A : Type 0) : Type 0 where
  polled_intent : (parsed : ServerIntent ⊎ String) → PolledEvent A
  polled_put :
      (version : ℤ) (kind : ObjectKind) (key : String) (item : ItemDescriptor A ⊎ String)
      → PolledEvent A
  polled_delete : DeleteObject → PolledEvent A
  polled_other : PolledEvent A

pub record PollingResponse (A : Type 0) : Type 0 where
  pub events : List (Event A)
  pub cached : Bool
  pub intent : IntentCode
  pub selector : Option Selector

abbrev pub new_cached_polling_response : {A : Type 0} → PollingResponse A
new_cached_polling_response = record { events = []; cached = true; intent = ""; selector = none }

abbrev pub new_polling_response :
    {A : Type 0} → IntentCode → List (Event A) → Option Selector → PollingResponse A
new_polling_response intent events selector = record {
  events = events;
  cached = false;
  intent = intent;
  selector = selector;
}

-- The object of a put is the descriptor that DeserializeFromJSONReader returns, not the item in it.
abbrev pub Polled : Type 0 → Type 0
Polled A = PollingResponse (ItemDescriptor A) ⊎ String

-- The code of an intent's first payload.
unfoldable pub read_intent : ServerIntent → IntentCode ⊎ String
read_intent i = elim i.payloads [
  | [] ↦ inr "server-intent event has no payloads"
  | (p ∷ ps) ↦ inl p.code
]

module _ {A : Type 0} where
  unfoldable pub read_events :
      List (PolledEvent A) → IntentCode → List (Event (ItemDescriptor A)) → Polled A
  unfolding read_intent
  read_events [] code updates =
      if code == ""
      then inr "no server-intent event found in polling response"
      else inl (new_polling_response code updates no_selector)
  read_events (polled_intent (inr err) ∷ es) code updates = inr err
  read_events (polled_intent (inl i) ∷ es) code updates = elim (read_intent i) [
    | inr err ↦ inr err
    | inl c ↦ if c == "none" then inl new_cached_polling_response else read_events es c updates
  ]
  read_events (polled_put version kind key (inr err) ∷ es) code updates = inr err
  read_events (polled_put version kind key (inl item) ∷ es) code updates = read_events es code (
      updates
      ++ put_object (record { version = version; kind = kind; key = key; object = some item }) ∷ [])
  read_events (polled_delete d ∷ es) code updates =
      read_events es code (updates ++ delete_object d ∷ [])
  read_events (polled_other ∷ es) code updates = read_events es code updates

-- A put, by its version, kind, key and descriptor.
abbrev Put : Type 0 → Type 0
Put A = ℤ × ObjectKind × String × ItemDescriptor A

abbrev polled : {A : Type 0} → Put A → PolledEvent A
polled (version, kind, key, item) = polled_put version kind key (inl item)

abbrev update : {A : Type 0} → Put A → Event (ItemDescriptor A)
update (version, kind, key, item) =
    put_object (record { version = version; kind = kind; key = key; object = some item })

-- After an intent the puts of a payload become updates in their order, each with the whole descriptor as its
-- object.
read_events-puts :
    {A : Type 0} (puts : List (Put A)) (code : IntentCode)
    (updates : List (Event (ItemDescriptor A)))
    → (code == "") ≡ false
    → read_events (map polled puts) code updates
      ≡ inl (new_polling_response code (updates ++ map update puts) no_selector)
unfolding read_events
read_events-puts [] code updates known =
    let whole = append-nil updates in ground (arith, known, whole)
read_events-puts (put ∷ puts) code updates known =
    read_events-puts puts code (updates ++ update put ∷ []) known
    ∙ ap (λ es. inl (new_polling_response code es no_selector))
        (append_assoc updates (update put ∷ []) (map update puts))

module _ {A W : Type 0} (destination : DataDestination A W) where
  unfoldable pub apply_response : PollingResponse A → W → W
  apply_response response w =
      if response.cached
      then w
      else if response.intent == "xfer-full"
      then destination.set_basis response.events response.selector true w
      else if response.intent == "xfer-changes"
      then destination.apply_delta response.events response.selector true w
      else w

  unfoldable pub poll : PollingResponse A ⊎ RequestError → W → Option RequestError × W
  unfolding apply_response
  poll (inr err) w = (some err, w)
  poll (inl response) w = (none, apply_response response w)
