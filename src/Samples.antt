-- ===== src/Samples.antt =====
-- Concrete data for the tests: items whose payload lists the keys of the flags that they refer to.
mod Stores
mod Sorting
mod Migrations
mod Sink
mod References
mod Modes
mod Listeners
mod Caching
mod Evaluations
mod Sources
use mathlib.Core.List.Perm
use go_server_sdk.Prelude.{
  ℕ, String, string_eq, Eq-set, List, [], ◌∷◌, none, some, pos, true, false,
}
use go_server_sdk.Types.{
  ItemDescriptor, KeyedItemDescriptor, Collection, features, segments, DataStore,
}
use go_server_sdk.Toposort.{LdModel, MapOrder}
use go_server_sdk.MemoryStore.{Store}
use go_server_sdk.InMemoryDataStore.{InMemoryDataStore, in_memory}

abbrev pub Item : Type 0
Item = List String

String-set : IsSet String
String-set = Eq-set

pub Item-set : IsSet Item
Item-set = hlevel (String-set)

abbrev pub sample_model : LdModel Item
sample_model = record {
  FeatureFlag = Item;
  Segment = Unit;
  Clause = Unit;
  Value = Unit;
  as_flag = some;
  as_segment = λ _. none;
  prerequisite_keys = λ f. f;
  flag_rules = λ _. [];
  segment_rules = λ _. [];
  is_segment_match = λ _. false;
  clause_values = λ _. [];
  string_value = λ _. none;
}

abbrev pub sample_order : MapOrder
sample_order = record {
  key_order = λ l. l;
  vertex_order = λ l. l;
  key_order_perm = λ l. Perm.refl l;
  vertex_order_perm = λ l. Perm.refl l;
}

abbrev pub flag : ℕ → Item → ItemDescriptor Item
flag version refs = record { version = pos version; item = some refs }

-- The flag "b" has the flag "a" as its prerequisite.
abbrev pub two_flags : List (KeyedItemDescriptor Item)
two_flags = ("b", flag 1 ("a" ∷ [])) ∷ ("a", flag 1 []) ∷ []

abbrev pub full_data : List (Collection Item)
full_data =
    record { kind = features; items = two_flags } ∷ record { kind = segments; items = [] } ∷ []

-- A newer version of "a", and an older one of "b".
abbrev pub delta_data : List (Collection Item)
delta_data = record { kind = features; items = ("a", flag 3 []) ∷ ("b", flag 0 []) ∷ [] } ∷ []

abbrev pub same_items : List (KeyedItemDescriptor Item) → List (KeyedItemDescriptor Item)
same_items l = l

abbrev pub sample_store : DataStore Item (InMemoryDataStore Item)
sample_store = in_memory same_items
