-- ===== src/DataSystem/Mirror.antt =====
-- In read-write mode the persistent store mirrors the memory store.
use go_server_sdk.Prelude.{
  String, string_eq, Bool, true, Option, none, some, List, [], ◌∷◌, ◌≡◌, refl, sym, ◌∙◌, ap, arith,
}
use go_server_sdk.Types.{DataKind, features, segments, other, DataStore}
use go_server_sdk.DataStore.{Lawful}
use go_server_sdk.MemoryStore
use go_server_sdk.MemoryStore.View.{View, view}
use go_server_sdk.MemoryStore.Contents.{basis_view, view-set_basis}
use go_server_sdk.Proto.{Event, Selector, to_storable_items, flag_kind, segment_kind}
use go_server_sdk.Proto.Storable.{to_storable_items_lem, all_stored}
use go_server_sdk.Toposort.{LdModel, MapOrder, sort, add_items_in_dependency_order}
use go_server_sdk.Toposort.Collections.{sort_storable, last_value-add_items}
use go_server_sdk.DataSystem.{Store, PersistentStore, mode_read_write, set_basis}

module _ {A S : Type 0} (a_set : IsSet A) (impl : DataStore A S) (contents : S → View A)
    {IsValid : S → Type 0} (lawful : Lawful impl contents IsValid) (model : LdModel A)
    (order : MapOrder) where
  basis_view-sort :
      (es : List (Event A)) (k : DataKind) (j : String)
      → basis_view (sort model order (to_storable_items es)) k j
        ≡ basis_view (to_storable_items es) k j
  basis_view-sort es k j = rw (to_storable_items_lem es) (
      rw (sort_storable model order (all_stored flag_kind es) (all_stored segment_kind es))
        (by_kind k))
    where
      by_kind :
          (k : DataKind)
          → basis_view
              (record { kind = segments; items = all_stored segment_kind es }
                ∷ record {
                  kind = features;
                  items =
                      add_items_in_dependency_order model order features (all_stored flag_kind es);
                }
                ∷ [])
              k
              j
            ≡ basis_view
                (record { kind = features; items = all_stored flag_kind es }
                  ∷ record { kind = segments; items = all_stored segment_kind es }
                  ∷ [])
                k
                j
      by_kind features = last_value-add_items a_set model order features (all_stored flag_kind es) j
      by_kind segments = refl
      by_kind (other _ _) = refl

  set_basis_memory :
      (events : List (Event A)) (selector : Option Selector) (persist : Bool) (s : Store A S)
      → (set_basis impl model order events selector persist s).memory_store
        ≡ MemoryStore.set_basis (to_storable_items events) s.memory_store
  unfolding set_basis
  set_basis_memory events selector persist s = ground arith

  -- For a payload type that is a set and a persistent store that keeps the contract of DataStore:
  -- after SetBasis with persistence, in read-write mode, if the persistent store took the data, it
  -- holds under every kind and key what the memory store holds.
  pub set_basis-mirrors :
      (events : List (Event A)) (selector : Option Selector) (s : Store A S) (p : PersistentStore S)
      → s.persistent_store ≡ some p
      → p.mode ≡ mode_read_write
      → (impl.init (sort model order (to_storable_items events)) p.state).0 ≡ none
      → let s' = set_basis impl model order events selector true s in
        (p' : PersistentStore S) × (s'.persistent_store ≡ some p')
        × ((k : DataKind) (j : String) → contents p'.state k j ≡ view s'.memory_store k j)
  unfolding set_basis
  set_basis-mirrors events selector s p here mode ok =
      let sorted = sort model order (to_storable_items events) in
      (
        record p { state = (impl.init sorted p.state).1 },
        ground arith,
        λ k j.
            lawful.init_contents sorted p.state ok k j
            ∙ basis_view-sort events k j
            ∙ sym (view-set_basis (to_storable_items events) s.memory_store k j)
            ∙ sym (ap (λ m. view m k j) (set_basis_memory events selector true s)),
      )
