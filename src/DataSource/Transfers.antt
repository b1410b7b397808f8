-- ===== src/DataSource/Transfers.antt =====
-- Transfers of the FDv2 streaming data source of internal/datasourcev2/streaming_data_source.go.
use mathlib.Core.List.{append_assoc}
use go_server_sdk.Prelude.{
  ℕ, string_eq, true, false, Option, none, some, List, [], ◌∷◌, ◌++◌, inl, ◌==◌, map, if◌then◌else◌,
  ◌||◌, ◌≡◌, refl, ap, ◌∙◌, arith,
}
use go_server_sdk.Proto.{Event, IntentCode, ServerIntent, Payload, Selector}
use go_server_sdk.UpdateSink.Status.{no_error, valid}
use go_server_sdk.DataSource.Fdv2.{
  DataDestination, StreamEvent, object_event, intent_event, transferred_event, no_changes,
  StreamProcessor, deserialize_events, set_initialized_and_notify_client, transfer, intent_code,
  payload_transferred, server_intent_received, process_event, conclude, handle_event,
  log_connection_result,
}

abbrev pub object_events : {A : Type 0} → List (Event A) → List (StreamEvent A)
object_events es = map (λ e. object_event (inl e)) es

deserialize-object_events :
    {A : Type 0} (es : List (Event A)) (sel : Selector)
    → deserialize_events (object_events es ++ transferred_event (inl sel) ∷ []) ≡ inl es
unfolding deserialize_events
deserialize-object_events [] sel = refl
deserialize-object_events (e ∷ es) sel =
    let rest = deserialize-object_events es sel in ground (arith, rest)

module _ {A W : Type 0} (destination : DataDestination A W) (now : ℕ) where
  unfoldable pub run_events :
      List (StreamEvent A) → StreamProcessor A W → Option (StreamProcessor A W)
  unfolding handle_event
  run_events [] s = some s
  run_events (e ∷ es) s = elim (handle_event destination now e s) [
    | none ↦ none
    | some s' ↦ run_events es s'
  ]

  -- The status is set to VALID after each of `n` events.
  unfoldable pub validated : List (Event A) → W → W
  validated [] w = w
  validated (_ ∷ es) w = validated es (destination.update_status valid no_error w)

  -- What the destination has after a transfer of `es` by an intent of the code `code`.
  unfoldable pub transferred : IntentCode → List (Event A) → Selector → W → W
  transferred code es sel w =
      if code == "xfer-full"
      then destination.set_basis es (some sel) true w
      else if code == "xfer-changes"
      then destination.apply_delta es (some sel) true w
      else w

  -- A finished transfer that began in the state `s`: `w` is the world before the last event.
  abbrev pub IsTransferred :
      IntentCode
      → List (Event A)
      → Selector
      → W
      → StreamProcessor A W
      → StreamProcessor A W
      → Type 0
  IsTransferred code all sel w s s' =
      (s'.world ≡ destination.update_status valid no_error (transferred code all sel w))
      × (s'.is_initialized ≡ (code == "xfer-full" || s.is_initialized))
      × (s'.restarts ≡ s.restarts)
      × (s'.current_change_set ≡ no_changes)

  transfer-IsTransferred :
      (code : IntentCode) (all : List (Event A)) (sel : Selector) (s : StreamProcessor A W)
      → IsTransferred code all sel s.world s
          (conclude destination ((true, false), transfer destination code all sel s))
  unfolding conclude transfer transferred set_initialized_and_notify_client
  transfer-IsTransferred code all sel s =
      (ground (arith), ground (arith), ground (arith), ground (arith))

  -- The objects of a transfer and its end, where the change set holds its first objects.
  run_transfer :
      (es all : List (Event A)) (sel : Selector) (code : IntentCode) (s : StreamProcessor A W)
      → intent_code s.current_change_set.intent ≡ some code
      → s.current_change_set.events ++ (object_events es ++ transferred_event (inl sel) ∷ [])
        ≡ object_events all ++ transferred_event (inl sel) ∷ []
      → (s' : StreamProcessor A W) × (run_events
            (object_events es ++ transferred_event (inl sel) ∷ [])
            s
          ≡ some s')
        × IsTransferred code all sel (validated es s.world) s s'
  unfolding run_events handle_event process_event payload_transferred conclude validated
      log_connection_result
  run_transfer [] all sel code s intent same =
      let changes = s.current_change_set in
      let events = changes.events ++ transferred_event (inl sel) ∷ [] in
      let read = ap deserialize_events same ∙ deserialize-object_events all sel in
      let s₁ = record (log_connection_result now true s) {
        current_change_set = record changes { events = events };
      } in
      (
        conclude destination ((true, false), transfer destination code all sel s₁),
        ground (arith, read, intent),
        transfer-IsTransferred code all sel s₁,
      )
  run_transfer (e ∷ es) all sel code s intent same =
      let changes = s.current_change_set in
      let rest = object_events es ++ transferred_event (inl sel) ∷ [] in
      let s₁ = record (log_connection_result now true s) {
        current_change_set = record changes {
          events = changes.events ++ object_event (inl e) ∷ [];
        };
        world = destination.update_status valid no_error s.world;
      } in
      run_transfer es all sel code s₁ intent
        (append_assoc changes.events (object_event (inl e) ∷ []) rest ∙ same)

  -- A transfer, as the protocol has it: an intent with a first payload that is not `none`, any objects that
  -- can be read, and the end of the transfer. No panic occurs, the destination is given all the
  -- objects in their order with the selector, as a basis or as a delta by the intent's code, the
  -- status is set to VALID after each event, nothing is restarted, a full transfer initializes
  -- the data source, and no change is left over.
  pub run_events-transfer :
      (intent : ServerIntent) (p : Payload) (ps : List Payload) (es : List (Event A))
      (sel : Selector) (s : StreamProcessor A W)
      → intent.payloads ≡ p ∷ ps
      → (p.code == "none") ≡ false
      → (s' : StreamProcessor A W) × (run_events
            (intent_event (inl intent) ∷ object_events es ++ transferred_event (inl sel) ∷ [])
            s
          ≡ some s')
        × IsTransferred p.code es sel
            (validated es (destination.update_status valid no_error s.world))
            s
            s'
  unfolding run_events handle_event process_event server_intent_received conclude intent_code
      log_connection_result
  run_events-transfer intent p ps es sel s first wanted =
      let s₁ = record (log_connection_result now true s) {
        current_change_set = record { intent = some intent; events = [] };
        world = destination.update_status valid no_error s.world;
      } in
      let (s', run, result) = run_transfer es es sel p.code s₁ (ground (arith, first)) refl in
      (s', ground (arith, first, wanted, run), result)

  run_without_intent :
      (es all : List (Event A)) (sel : Selector) (s : StreamProcessor A W)
      → intent_code s.current_change_set.intent ≡ none
      → s.current_change_set.events ++ (object_events es ++ transferred_event (inl sel) ∷ [])
        ≡ object_events all ++ transferred_event (inl sel) ∷ []
      → run_events (object_events es ++ transferred_event (inl sel) ∷ []) s ≡ none
  unfolding run_events handle_event process_event payload_transferred conclude log_connection_result
  run_without_intent [] all sel s missing same =
      let read = ap deserialize_events same ∙ deserialize-object_events all sel in
      ground (arith, read, missing)
  run_without_intent (e ∷ es) all sel s missing same =
      let changes = s.current_change_set in
      let rest = object_events es ++ transferred_event (inl sel) ∷ [] in
      let s₁ = record (log_connection_result now true s) {
        current_change_set = record changes {
          events = changes.events ++ object_event (inl e) ∷ [];
        };
        world = destination.update_status valid no_error s.world;
      } in
      run_without_intent es all sel s₁ missing
        (append_assoc changes.events (object_event (inl e) ∷ []) rest ∙ same)

  -- With no change set begun, as after a transfer or an error event, objects that can be read and the end of
  -- a transfer make the goroutine panic, unless an intent comes first.
  pub run_events-panic :
      (es : List (Event A)) (sel : Selector) (s : StreamProcessor A W)
      → s.current_change_set ≡ no_changes
      → run_events (object_events es ++ transferred_event (inl sel) ∷ []) s ≡ none
  unfolding intent_code
  run_events-panic es sel s none_begun =
      run_without_intent es es sel s (ap (λ c. intent_code c.intent) none_begun)
        (ap (λ c. c.events ++ (object_events es ++ transferred_event (inl sel) ∷ [])) none_begun)
