-- ===== src/Toposort/Collections.antt =====
-- Sort as a whole: the order of the collections, and what it keeps.
use mathlib.Core.List.{Perm, perm_middle, append-nil}
use mathlib.Core.List.Perm
use Prim.Native.String.{len}
use go_server_sdk.Prelude.{
  ℕ, ◌≤◌, String, string_eq, Option, none, some, List, [], ◌∷◌, ◌++◌, map, ltb, ◌+◌, ◌≢◌,
  if◌then◌else◌, ◌≡◌, refl, ◌∙◌, arith, Bool-cases, inl, inr, insert_all, insert_all-NodupKeys,
  last_value, lookup, first_some, perm-last_value, lookup-insert_all,
}
use go_server_sdk.Types.{
  DataKind, features, segments, other, kind_eq, ItemDescriptor, KeyedItemDescriptor, Collection,
}
use go_server_sdk.Toposort.{
  LdModel, MapOrder, data_kind_priority, insert_collection, sort_slice, order_items, sort,
  add_items_in_dependency_order, does_data_kind_support_dependencies,
}
use go_server_sdk.Toposort.Visits.{add_items_in_dependency_order-perm}

-- The place of a kind by its name: segments, then features, then any other kind, a shorter name before a
-- longer one.
abbrev name_rank : String → ℕ
name_rank name =
    if string_eq.beq name "segments"
    then 0
    else if string_eq.beq name "features"
    then 1
    else len name + 2

abbrev pub rank : DataKind → ℕ
rank segments = 0
rank features = 1
rank (other _ name) = name_rank name

data_kind_priority-rank : (kind : DataKind) → data_kind_priority kind ≡ rank kind
unfolding data_kind_priority
data_kind_priority-rank features = refl
data_kind_priority-rank segments = refl
data_kind_priority-rank (other _ name) = refl

module _ {A : Type 0} where
  abbrev IsRanked : ℕ → List (Collection A) → Type 0
  IsRanked p [] = Unit
  IsRanked p (c ∷ cs) = (p ≤ rank c.kind) × IsRanked p cs

  -- The kinds of the collections do not descend.
  abbrev pub IsInOrder : List (Collection A) → Type 0
  IsInOrder [] = Unit
  IsInOrder (c ∷ cs) = IsRanked (rank c.kind) cs × IsInOrder cs

  abbrev AllAbove : ℕ → List (Collection A) → Type 0
  AllAbove p [] = Unit
  AllAbove p (c ∷ cs) = (p ≤ data_kind_priority c.kind) × AllAbove p cs

  abbrev IsSorted : List (Collection A) → Type 0
  IsSorted [] = Unit
  IsSorted (c ∷ cs) = AllAbove (data_kind_priority c.kind) cs × IsSorted cs

  AllAbove-weaken : {p q : ℕ} (cs : List (Collection A)) → p ≤ q → AllAbove q cs → AllAbove p cs
  AllAbove-weaken [] le h = tt
  AllAbove-weaken (c ∷ cs) le h = (omega arith, AllAbove-weaken cs le h.1)

  AllAbove-insert :
      (p : ℕ) (c : Collection A) (cs : List (Collection A))
      → p ≤ data_kind_priority c.kind
      → AllAbove p cs
      → AllAbove p (insert_collection c cs)
  unfolding insert_collection
  AllAbove-insert p c [] le h = (le, tt)
  AllAbove-insert p c (d ∷ ds) le h =
      elim (Bool-cases (ltb (data_kind_priority c.kind) (data_kind_priority d.kind))) [
        | inl before ↦ rw before (le, h)
        | inr after ↦ rw after (h.0, AllAbove-insert p c ds le h.1)
      ]

  insert_collection-IsSorted :
      (c : Collection A) (cs : List (Collection A))
      → IsSorted cs
      → IsSorted (insert_collection c cs)
  unfolding insert_collection
  insert_collection-IsSorted c [] h = (tt, tt)
  insert_collection-IsSorted c (d ∷ ds) h =
      elim (Bool-cases (ltb (data_kind_priority c.kind) (data_kind_priority d.kind))) [
        | inl before ↦
            let le : data_kind_priority c.kind ≤ data_kind_priority d.kind = ground arith in
            rw before ((le, AllAbove-weaken ds le h.0), h)
        | inr after ↦ rw after (
          AllAbove-insert (data_kind_priority d.kind) c ds (ground arith) h.0,
          insert_collection-IsSorted c ds h.1,
        )
      ]

  insert_collection-perm :
      (c : Collection A) (cs : List (Collection A)) → Perm (insert_collection c cs) (c ∷ cs)
  unfolding insert_collection
  insert_collection-perm c [] = Perm.refl _
  insert_collection-perm c (d ∷ ds) =
      elim (Bool-cases (ltb (data_kind_priority c.kind) (data_kind_priority d.kind))) [
        | inl before ↦ rw before (Perm.refl _)
        | inr after ↦
            rw after (Perm.trans (Perm.cons d (insert_collection-perm c ds)) (Perm.swap c d ds))
      ]

  sort_slice-IsSorted :
      (cs sorted : List (Collection A)) → IsSorted sorted → IsSorted (sort_slice cs sorted)
  unfolding sort_slice
  sort_slice-IsSorted [] sorted h = h
  sort_slice-IsSorted (c ∷ cs) sorted h =
      sort_slice-IsSorted cs _ (insert_collection-IsSorted c sorted h)

  sort_slice-perm : (cs sorted : List (Collection A)) → Perm (sort_slice cs sorted) (cs ++ sorted)
  unfolding sort_slice
  sort_slice-perm [] sorted = Perm.refl _
  sort_slice-perm (c ∷ cs) sorted =
      Perm.trans (sort_slice-perm cs (insert_collection c sorted))
        (Perm.trans (Perm.append_left cs (insert_collection-perm c sorted)) (perm_middle cs sorted))

  AllAbove-IsRanked :
      (p : ℕ) (k : DataKind) (cs : List (Collection A))
      → p ≡ rank k
      → AllAbove p cs
      → IsRanked (rank k) cs
  AllAbove-IsRanked p k [] e h = tt
  AllAbove-IsRanked p k (c ∷ cs) e h =
      let same = data_kind_priority-rank c.kind in
      (ground (arith, h.0, e, same), AllAbove-IsRanked p k cs e h.1)

  IsSorted-IsInOrder : (cs : List (Collection A)) → IsSorted cs → IsInOrder cs
  IsSorted-IsInOrder [] h = tt
  IsSorted-IsInOrder (c ∷ cs) h = (
    AllAbove-IsRanked _ c.kind cs (data_kind_priority-rank c.kind) h.0,
    IsSorted-IsInOrder cs h.1,
  )

  -- The collection `d` is `c` with its items put in another order: a collection of features has each of its keys
  -- once, with the last descriptor of the key, and any other collection stays as it is.
  abbrev pub IsArranged : Collection A → Collection A → Type 0
  IsArranged c d =
      (d.kind ≡ c.kind)
      × (c.kind ≡ features → Perm d.items (insert_all c.items []))
      × (c.kind ≢ features → d ≡ c)

  order_items-IsArranged :
      (model : LdModel A) (order : MapOrder) (c : Collection A)
      → IsArranged c (order_items model order c)
  unfolding order_items does_data_kind_support_dependencies
  order_items-IsArranged model order c = elim (Bool-cases (kind_eq.beq c.kind features)) [
    | inl same ↦ rw same (
      refl,
      λ e. add_items_in_dependency_order-perm model order c.kind c.items,
      λ n. absurd (n ((kind_eq.beq_iff c.kind features).0 same)),
    )
    | inr different ↦
        rw different (refl, λ e. cc ((kind_eq.beq_iff c.kind features).1 e, different), λ n. refl)
  ]

  -- Sort returns the collections by kind, segments before features before all others, each collection
  -- once: the result has the collections of an arrangement of the data set, one for each.
  pub sort_lem :
      (model : LdModel A) (order : MapOrder) (cs : List (Collection A))
      → IsInOrder (sort model order cs)
        × (arrange : Collection A → Collection A) × Perm (sort model order cs) (map arrange cs)
        × ((c : Collection A) → IsArranged c (arrange c))
  unfolding sort
  sort_lem model order cs =
      let items = map (order_items model order) cs in
      (
        IsSorted-IsInOrder _ (sort_slice-IsSorted items [] tt),
        order_items model order,
        rw append-nil at (sort_slice-perm items []),
        order_items-IsArranged model order,
      )

  -- For a payload type that is a set, the reordering of a collection does not change what the
  -- collection says of each key.
  pub last_value-add_items :
      IsSet A
      → (model : LdModel A) (order : MapOrder) (kind : DataKind)
        (items : List (KeyedItemDescriptor A)) (j : String)
      → last_value j (add_items_in_dependency_order model order kind items) ≡ last_value j items
  unfolding lookup
  last_value-add_items a_set model order kind items j =
      perm-last_value descriptor_set j _ (insert_all items [])
        (add_items_in_dependency_order-perm model order kind items)
        (insert_all-NodupKeys items [] tt)
      ∙ lookup-insert_all j items []
      ∙ unread (last_value j items)
    where
      descriptor_set : IsSet (ItemDescriptor A)
      descriptor_set = hlevel a_set

      unread : (o : Option (ItemDescriptor A)) → first_some o none ≡ o
      unread none = refl
      unread (some v) = refl

  -- On the data sets of the FDv2 protocol Sort only orders the flags and puts the segments first.
  pub sort_storable :
      (model : LdModel A) (order : MapOrder) (flags segs : List (KeyedItemDescriptor A))
      → sort model order (
          record { kind = features; items = flags } ∷ record { kind = segments; items = segs } ∷ [])
        ≡ record { kind = segments; items = segs }
          ∷ record {
            kind = features;
            items = add_items_in_dependency_order model order features flags;
          }
          ∷ []
  unfolding sort data_kind_priority
  sort_storable model order flags segs = refl
