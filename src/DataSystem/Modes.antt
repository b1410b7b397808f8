-- ===== src/DataSystem/Modes.antt =====
-- Which store is read and which is written, over any sequence of calls.
use go_server_sdk.Prelude.{String, Bool, false, Option, List, [], ◌∷◌, ◌≡◌, refl, ap, ◌∙◌, arith}
use go_server_sdk.Types.{DataKind, DataStore}
use go_server_sdk.MemoryStore
use go_server_sdk.Proto.{Event, Selector}
use go_server_sdk.Toposort.{LdModel, MapOrder}
use go_server_sdk.DataSystem.{
  Store, ListOrder, memory, writable, set_basis, apply_delta, commit, get, get_all, is_initialized,
}

-- The calls that carry data, and the calls that read it.
pub data Update (A : Type 0) : Type 0 where
  basis delta : (events : List (Event A)) (selector : Option Selector) (persist : Bool) → Update A
  committing : Update A

pub data Operation (A : Type 0) : Type 0 where
  update : Update A → Operation A
  reading : DataKind → String → Operation A
  listing : DataKind → Operation A
  asking : Operation A

module _ {A S : Type 0} (impl : DataStore A S) (model : LdModel A) (order : MapOrder)
    (list : ListOrder A) where
  apply_update : Update A → Store A S → Store A S
  apply_update (basis events selector persist) s =
      set_basis impl model order events selector persist s
  apply_update (delta events selector persist) s =
      apply_delta impl model order events selector persist s
  apply_update committing s = (commit impl list s).1

  pub run_updates : List (Update A) → Store A S → Store A S
  unfolding apply_update
  run_updates [] s = s
  run_updates (u ∷ us) s = run_updates us (apply_update u s)

  step : Operation A → Store A S → Store A S
  unfolding apply_update
  step (update u) s = apply_update u s
  step (reading kind key) s = (get impl kind key s).1
  step (listing kind) s = (get_all impl list kind s).1
  step asking s = (is_initialized impl s).1

  pub run : List (Operation A) → Store A S → Store A S
  unfolding step
  run [] s = s
  run (op ∷ ops) s = run ops (step op s)

  apply_update-unwritable :
      (u : Update A) (s : Store A S)
      → writable s.persistent_store ≡ false
      → (apply_update u s).persistent_store ≡ s.persistent_store
  unfolding apply_update set_basis apply_delta commit
  apply_update-unwritable (basis events selector persist) s h = ground arith
  apply_update-unwritable (delta events selector persist) s h = ground arith
  apply_update-unwritable committing s h = ground arith

  -- A read-only persistent store is never written to, whatever data arrives.
  pub run_updates-unwritable :
      (us : List (Update A)) (s : Store A S)
      → writable s.persistent_store ≡ false
      → (run_updates us s).persistent_store ≡ s.persistent_store
  unfolding run_updates
  run_updates-unwritable [] s h = refl
  run_updates-unwritable (u ∷ us) s h =
      let same = apply_update-unwritable u s h in
      run_updates-unwritable us (apply_update u s) (ap writable same ∙ h) ∙ same

  step-memory : (op : Operation A) (s : Store A S) → s.active ≡ memory → (step op s).active ≡ memory
  unfolding step set_basis apply_delta commit get get_all is_initialized
  step-memory (update (basis events selector persist)) s h = ground arith
  step-memory (update (delta events selector persist)) s h = ground arith
  step-memory (update committing) s h = ground arith
  step-memory (reading kind key) s h = ground arith
  step-memory (listing kind) s h = ground arith
  step-memory asking s h = ground arith

  run-memory :
      (ops : List (Operation A)) (s : Store A S) → s.active ≡ memory → (run ops s).active ≡ memory
  unfolding run
  run-memory [] s h = h
  run-memory (op ∷ ops) s h = run-memory ops (step op s) (step-memory op s h)

  get_memory :
      (s : Store A S) (kind : DataKind) (key : String)
      → s.active ≡ memory
      → get impl kind key s ≡ (MemoryStore.get kind key s.memory_store, s)
  unfolding get
  get_memory s kind key h = ground arith

  -- Once a basis is set, every later read is served by the memory store and leaves the store alone.
  pub get-after_basis :
      (events : List (Event A)) (selector : Option Selector) (persist : Bool)
      (ops : List (Operation A)) (s : Store A S) (kind : DataKind) (key : String)
      → let s' = run ops (set_basis impl model order events selector persist s) in
        get impl kind key s' ≡ (MemoryStore.get kind key s'.memory_store, s')
  unfolding set_basis
  get-after_basis events selector persist ops s kind key =
      let s' = run ops (set_basis impl model order events selector persist s) in
      get_memory s' kind key
        (run-memory ops (set_basis impl model order events selector persist s) (ground arith))
