-- ===== src/Samples/Stores.antt =====
-- The stores on the sample data.

use mathlib.Core.List.Perm
use go_server_sdk.Prelude.{
  String, List, none, string_eq, [], ◌∷◌, some, ◌≡◌, lookup, insert, insert_all,
}
use go_server_sdk.Types.{DataKind, features, ItemDescriptor, Collection}
use go_server_sdk.MemoryStore.{Store, apply_delta, set_basis, new, collect, find}
use go_server_sdk.MemoryStore.View.{view}
use go_server_sdk.MemoryStore.Delta.{view-apply_delta}
use go_server_sdk.MemoryStore.Contents.{view-set_basis}
use go_server_sdk.InMemoryDataStore.{InMemoryDataStore, in_memory}
use go_server_sdk.InMemoryDataStore.Laws.{contents, IsConsistent, in_memory-Lawful}
use go_server_sdk.DataStore.{Lawful}
use go_server_sdk.Samples.{Item, Item-set, flag, full_data, delta_data, same_items}

abbrev loaded : Store Item
loaded = set_basis full_data new

view-apply_delta_example : view (apply_delta delta_data loaded).0 features "a" ≡ some (flag 3 [])
unfolding set_basis collect new find lookup insert insert_all
view-apply_delta_example = view-apply_delta delta_data loaded features "a"

view-set_basis_example : view loaded features "b" ≡ some (flag 1 ("a" ∷ []))
view-set_basis_example = view-set_basis full_data new features "b"

in_memory-Lawful_example :
    Lawful (in_memory same_items) contents IsConsistent
    × ((cs : List (Collection Item)) (s : InMemoryDataStore Item)
        → ((in_memory same_items).init cs s).0 ≡ none)
    × ((kind : DataKind) (key : String) (item : ItemDescriptor Item) (s : InMemoryDataStore Item)
        → (((in_memory same_items).upsert kind key item s).0.1 ≡ none)
          × (((in_memory same_items).get kind key s).0.1 ≡ none)
          × (((in_memory same_items).get_all kind s).0.1 ≡ none))
in_memory-Lawful_example = in_memory-Lawful Item-set same_items (λ l. Perm.refl l)
