-- ===== src/Toposort.antt =====
-- internal/toposort/toposort.go.
pub mod Visits
pub mod Collections
pub mod Order
use mathlib.Core.List.{Perm}
use go_server_sdk.Prelude.{
  ℕ, zero, suc, ◌+◌, String, string_eq, Bool, true, false, ◌&&◌, Option, none, some, List, [], ◌∷◌,
  ◌++◌, map, Eq, ◌==◌, Map, lookup, has_key, insert, delete, insert_all, or_else, keys, size,
  if◌then◌else◌, ltb, pos, ◌≡◌, ◌↔◌, arith,
}
use Prim.Native.String.{len}
use go_server_sdk.Types.{
  DataKind, features, segments, other, kind_eq, get_name, ItemDescriptor, KeyedItemDescriptor,
  Collection,
}

-- A Vertex is its kind and its key.
abbrev pub Vertex : Type 0
Vertex = DataKind × String

abbrev pub new_vertex : DataKind → String → Vertex
new_vertex kind key = (kind, key)

abbrev pub vertex_beq : Vertex → Vertex → Bool
vertex_beq (k, s) (l, t) = kind_eq.beq k l && string_eq.beq s t

pub vertex_beq_iff : (a b : Vertex) → (vertex_beq a b ≡ true) ↔ (a ≡ b)
vertex_beq_iff (k, s) (l, t) = ground (arith, kind_eq.beq_iff k l, string_eq.beq_iff s t)

instance abbrev pub vertex_eq : Eq Vertex
vertex_eq = record { beq = vertex_beq; beq_iff = vertex_beq_iff }

-- A set of vertices: a map to the empty struct.
abbrev pub Neighbors : Type 0
Neighbors = Map Vertex (Unit {0})

abbrev pub AdjacencyList : Type 0
AdjacencyList = Map Vertex Neighbors

abbrev pub add : Vertex → Neighbors → Neighbors
add value s = insert value tt s

abbrev pub contains : Neighbors → Vertex → Bool
contains s value = has_key value s

-- What toposort uses of the evaluation engine's model (go-server-sdk-evaluation, ldmodel) and of
-- ldvalue, which this repository does not contain. `as_flag` and `as_segment` are the type assertions
-- on an item's payload, `flag_rules` and `segment_rules` the clauses of each rule, `string_value` the
-- value of a clause if it is a string.
pub record LdModel (A : Type 0) : Type 1 where
  pub FeatureFlag : Type 0
  pub Segment : Type 0
  pub Clause : Type 0
  pub Value : Type 0
  pub as_flag : A → Option FeatureFlag
  pub as_segment : A → Option Segment
  pub prerequisite_keys : FeatureFlag → List String
  pub flag_rules : FeatureFlag → List (List Clause)
  pub segment_rules : Segment → List (List Clause)
  pub is_segment_match : Clause → Bool
  pub clause_values : Clause → List Value
  pub string_value : Value → Option String

-- Go leaves the order of a range over a map open. `key_order` and `vertex_order` stand for the orders in which
-- the two maps of this package are visited; a visit meets each entry once.
pub record MapOrder : Type 0 where
  pub key_order : List String → List String
  pub vertex_order : List Vertex → List Vertex
  pub key_order_perm : (l : List String) → Perm (key_order l) l
  pub vertex_order_perm : (l : List Vertex) → Perm (vertex_order l) l

module _ {A : Type 0} (model : LdModel A) where
  open model use {FeatureFlag, Segment, Clause, Value}

  add_values : List Value → Neighbors → Neighbors
  add_values [] ret = ret
  add_values (v ∷ vs) ret =
      add_values vs (elim (model.string_value v) [ none ↦ ret | some s ↦ add (segments, s) ret ])

  check_clauses : List Clause → Neighbors → Neighbors
  unfolding add_values
  check_clauses [] ret = ret
  check_clauses (c ∷ cs) ret =
      check_clauses cs
        (if model.is_segment_match c then add_values (model.clause_values c) ret else ret)

  check_rules : List (List Clause) → Neighbors → Neighbors
  unfolding check_clauses
  check_rules [] ret = ret
  check_rules (r ∷ rs) ret = check_rules rs (check_clauses r ret)

  add_prerequisites : List String → Neighbors → Neighbors
  add_prerequisites [] ret = ret
  add_prerequisites (p ∷ ps) ret = add_prerequisites ps (add (features, p) ret)

  flag_neighbors : Option FeatureFlag → Neighbors
  unfolding check_rules add_prerequisites
  flag_neighbors none = []
  flag_neighbors (some flag) =
      check_rules (model.flag_rules flag) (add_prerequisites (model.prerequisite_keys flag) [])

  segment_neighbors : Option Segment → Neighbors
  unfolding check_rules
  segment_neighbors none = []
  segment_neighbors (some segment) = check_rules (model.segment_rules segment) []

  -- The type assertion on a nil payload fails.
  abbrev assert_type : {T : Type 0} → (A → Option T) → Option A → Option T
  assert_type assert none = none
  assert_type assert (some a) = assert a

  unfoldable pub get_neighbors : DataKind → ItemDescriptor A → Neighbors
  unfolding flag_neighbors segment_neighbors
  get_neighbors features from_item = flag_neighbors (assert_type model.as_flag from_item.item)
  get_neighbors segments from_item = segment_neighbors (assert_type model.as_segment from_item.item)
  get_neighbors (other _ _) from_item = []

-- The state of addWithDependenciesFirst: the items that are not visited yet, and the output slice.
pub record Walk (A : Type 0) : Type 0 where
  pub remaining : Map String (ItemDescriptor A)
  pub out : List (KeyedItemDescriptor A)

abbrev zero_item : {A : Type 0} → ItemDescriptor A
zero_item = record { version = pos 0; item = none }

module _ {A : Type 0} (kind : DataKind) where
  -- The loop over the dependencies; `visit` is the recursive call.
  pub visit_neighbors : (String → Walk A → Walk A) → List Vertex → Walk A → Walk A
  visit_neighbors visit [] w = w
  visit_neighbors visit (dep ∷ deps) w =
      visit_neighbors visit deps
        (if kind_eq.beq dep.0 kind && has_key dep.1 w.remaining then visit dep.1 w else w)

module _ {A : Type 0} (model : LdModel A) (order : MapOrder) (kind : DataKind) where
  -- `range GetNeighbors(kind, item)`
  abbrev pub ordered_neighbors : ItemDescriptor A → List Vertex
  ordered_neighbors item = order.vertex_order (keys (get_neighbors model kind item))

  -- Each call removes an entry from the map, so the map's size is enough fuel.
  pub add_with_dependencies_first : ℕ → String → Walk A → Walk A
  unfolding visit_neighbors
  add_with_dependencies_first zero starting_key w = w
  add_with_dependencies_first (suc fuel) starting_key w =
      let start_item = or_else (lookup starting_key w.remaining) zero_item in
      let w' =
        visit_neighbors kind (add_with_dependencies_first fuel) (ordered_neighbors start_item)
          (record w { remaining = delete starting_key w.remaining }) in
      record w' { out = w'.out ++ (starting_key, start_item) ∷ [] }

  -- `for len(remainingItems) > 0`, starting from the first key that the map yields.
  pub add_remaining : ℕ → Walk A → Walk A
  unfolding add_with_dependencies_first
  add_remaining zero w = w
  add_remaining (suc fuel) w = elim (order.key_order (keys w.remaining)) [
    | [] ↦ w
    | first_key ∷ _ ↦
        add_remaining fuel (add_with_dependencies_first (size w.remaining) first_key w)
  ]

  unfoldable pub add_items_in_dependency_order :
      List (KeyedItemDescriptor A) → List (KeyedItemDescriptor A)
  unfolding add_remaining
  add_items_in_dependency_order items_in =
      let remaining_items = insert_all items_in [] in
      (add_remaining (size remaining_items) (record { remaining = remaining_items; out = [] })).out

pub does_data_kind_support_dependencies : DataKind → Bool
does_data_kind_support_dependencies kind = kind_eq.beq kind features

-- Segments, then features, then any other kind.
pub data_kind_priority : DataKind → ℕ
unfolding get_name
data_kind_priority kind =
    let name = get_name kind in
    if name == "segments" then 0 else if name == "features" then 1 else len name + 2

module _ {A : Type 0} where
  -- sort.Slice by priority: the insertion sort that it runs on slices of up to twelve elements.
  pub insert_collection : Collection A → List (Collection A) → List (Collection A)
  insert_collection c [] = c ∷ []
  insert_collection c (d ∷ ds) =
      let rest = insert_collection c ds in
      if ltb (data_kind_priority c.kind) (data_kind_priority d.kind) then c ∷ d ∷ ds else d ∷ rest

  sort_slice : List (Collection A) → List (Collection A) → List (Collection A)
  unfolding insert_collection
  sort_slice [] sorted = sorted
  sort_slice (c ∷ cs) sorted = sort_slice cs (insert_collection c sorted)

  pub order_items : LdModel A → MapOrder → Collection A → Collection A
  unfolding does_data_kind_support_dependencies add_items_in_dependency_order
  order_items model order coll =
      if does_data_kind_support_dependencies coll.kind
      then record {
        kind = coll.kind;
        items = add_items_in_dependency_order model order coll.kind coll.items;
      }
      else coll

  unfoldable pub sort : LdModel A → MapOrder → List (Collection A) → List (Collection A)
  unfolding sort_slice order_items
  sort model order all_data = sort_slice (map (order_items model order) all_data) []
