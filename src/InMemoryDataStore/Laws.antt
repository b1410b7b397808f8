-- ===== src/InMemoryDataStore/Laws.antt =====
-- What the in-memory data store promises as a DataStore.
use mathlib.Core.List.{Perm, Nodup, Nodup-nil, Nodup-cons}
use mathlib.Core.List.Perm
use go_server_sdk.Prelude.{
  [], ◌∷◌, string_eq, Map, Eq, keys, mem-keys, NodupKeys, or_else, lookup, sym, ◌∙◌, String, List,
  refl, none, ◌≡◌,
}
use go_server_sdk.Types.{DataKind, kind_eq, ItemDescriptor, KeyedItemDescriptor, Collection}
use go_server_sdk.MemoryStore
use go_server_sdk.MemoryStore.{find, should_update}
use go_server_sdk.MemoryStore.View.{View, view-upsert, upsert_updated}
use go_server_sdk.MemoryStore.Contents.{
  NodupKeys-lookup, IsValid, view-set_basis, set_basis-IsValid, upsert-IsValid, mem-get_all,
}
use go_server_sdk.DataStore.{Lawful}
use go_server_sdk.InMemoryDataStore.{InMemoryDataStore, init, upsert, get, get_all, in_memory}

Nodup-keys : {K V : Type 0} ⦃e : Eq K⦄ (m : Map K V) → NodupKeys m → Nodup (keys m)
Nodup-keys [] h = Nodup-nil
Nodup-keys ((k, v) ∷ m) h =
    Nodup-cons.1 (λ here. cc (sym h.0 ∙ (mem-keys k m).0 here), Nodup-keys m h.1)

module _ {A : Type 0} where
  abbrev pub contents : InMemoryDataStore A → View A
  contents s kind key = find kind key s.all_data

  abbrev memory_store : InMemoryDataStore A → MemoryStore.Store A
  memory_store s = record { data_map = s.all_data; initialized = s.initialized }

  -- No kind occurs twice, and no key twice in a kind, as in a Go map.
  abbrev pub IsConsistent : InMemoryDataStore A → Type 0
  IsConsistent s = IsValid (memory_store s)

  -- For a payload type that is a set, and whatever the order in which Go ranges over a map, the in-memory
  -- store keeps the contract of a DataStore: Init and Upsert leave what they are to leave, Get returns it,
  -- GetAll lists exactly it, each key once, and none of them fails.
  pub in_memory-Lawful :
      IsSet A
      → (order : List (KeyedItemDescriptor A) → List (KeyedItemDescriptor A))
      → ((l : List (KeyedItemDescriptor A)) → Perm (order l) l)
      → Lawful (in_memory order) contents IsConsistent
        × ((cs : List (Collection A)) (s : InMemoryDataStore A)
            → ((in_memory order).init cs s).0 ≡ none)
        × ((kind : DataKind) (key : String) (item : ItemDescriptor A) (s : InMemoryDataStore A)
            → (((in_memory order).upsert kind key item s).0.1 ≡ none)
              × (((in_memory order).get kind key s).0.1 ≡ none)
              × (((in_memory order).get_all kind s).0.1 ≡ none))
  unfolding init upsert get get_all MemoryStore.set_basis MemoryStore.upsert MemoryStore.get_all
  in_memory-Lawful a_set order any = (
    record {
      init_contents = λ cs s ok k j. view-set_basis cs (memory_store s) k j;
      init_initialized = λ cs s ok. refl;
      upsert_contents = λ kind key item s ok k j. view-upsert kind key item (memory_store s) k j;
      upsert_result = λ kind key item s ok. upsert_updated kind key item (memory_store s);
      init_valid = λ cs s ok. set_basis-IsValid cs (memory_store s);
      upsert_valid = λ kind key item s h. upsert-IsValid kind key item (memory_store s) h;
      get_result = λ kind key s ok. refl;
      get_contents = λ kind key s k j. refl;
      get_all_result =
          λ kind s h ok key item. mem-get_all a_set order any (memory_store s) kind key item h;
      get_all_once = λ kind s h ok.
          Perm.nodup (Perm.map (λ x. x.0) (Perm.symm (any (or_else (lookup kind s.all_data) [])))) (
            Nodup-keys (or_else (lookup kind s.all_data) [])
              (NodupKeys-lookup kind s.all_data h.1));
      get_all_contents = λ kind s k j. refl;
    },
    λ cs s. refl,
    λ kind key item s. (refl, refl, refl),
  )
