-- ===== src/UpdateSink/Changes.antt =====
-- computeChangedItemsForFullDataSet: which items the listeners are told about.
use mathlib.Core.List.{
  Mem, Mem-prop, mem-cons, not-mem-nil, mem-cons_self, mem-cons_of_mem, mem-append_left,
  mem-append_right,
}
use mathlib.Core.List.Perm
use mathlib.Core.Logic.{∥∥₁_elim, ◌↔◌}
use go_server_sdk.Prelude.{
  String, string_eq, Bool, true, false, List, [], ◌∷◌, ◌++◌, arith, ◌≡◌, refl, sym, subst, Map,
  lookup, has_key, has_key_iff, mem-keys, or_else, keys, if◌then◌else◌, Bool-cases, inl, inr, ◌⊎◌,
  Option, none, some, ltb_ℤ,
}
use go_server_sdk.Types.{DataKind, features, segments, kind_eq, ItemDescriptor}
use go_server_sdk.Toposort.{Vertex, vertex_eq, Neighbors, MapOrder}
use go_server_sdk.Dependencies.{DependencyTracker, add_affected_items}
use go_server_sdk.Dependencies.Affected.{IsClosed, add_affected_items-least}
use go_server_sdk.UpdateSink.{
  DataMap, is_changed, new_keys, add_changed, add_changed_kinds,
  compute_changed_items_for_full_data_set,
}

-- Every item of the set is in `c`.
abbrev pub Within : (Vertex → Bool) → Neighbors → Type 0
Within c t = (x : Vertex) → has_key x t ≡ true → c x ≡ true

abbrev pub IsClosedSet : DependencyTracker → Neighbors → Type 0
IsClosedSet d t = IsClosed d.dependencies_to (λ x. has_key x t)

module _ (order : MapOrder) (d : DependencyTracker) where
  add_affected_items-IsClosed :
      (t : Neighbors) (v : Vertex)
      → IsClosedSet d t
      → IsClosedSet d (add_affected_items order d t v)
  add_affected_items-IsClosed t v closed x w h e =
      (add_affected_items-least order d t v w closed).1 (λ c cl old start.
        cl x w ((add_affected_items-least order d t v x closed).0 h c cl old start) e)

  add_affected_items-Within :
      (t : Neighbors) (v : Vertex) (c : Vertex → Bool)
      → IsClosedSet d t
      → IsClosed d.dependencies_to c
      → Within c (add_affected_items order d t v) ↔ (Within c t × (c v ≡ true))
  add_affected_items-Within t v c closed cl = (
    (λ h. (
      (λ x old.
          h x
            ((add_affected_items-least order d t v x closed).1 (λ c' cl' old' start. old' x old))),
      h v ((add_affected_items-least order d t v v closed).1 (λ c' cl' old' start. start)),
    )),
    (λ h x new. (add_affected_items-least order d t v x closed).0 new c cl h.0 h.1),
  )

  module _ {A : Type 0} (kind : DataKind)
      (old_items new_items : Map String (ItemDescriptor A)) where
    -- The two data sets do not have the same under the key.
    abbrev IsChanged : String → Type 0
    IsChanged key = is_changed (lookup key old_items) (lookup key new_items) ≡ true

    -- One turn of the loop.
    abbrev turn : String → Neighbors → Neighbors
    turn key t =
        if is_changed (lookup key old_items) (lookup key new_items)
        then add_affected_items order d t (kind, key)
        else t

    turn-IsClosed : (key : String) (t : Neighbors) → IsClosedSet d t → IsClosedSet d (turn key t)
    turn-IsClosed key t closed =
        elim (Bool-cases (is_changed (lookup key old_items) (lookup key new_items))) [
          | inl new ↦ rw new (add_affected_items-IsClosed t (kind, key) closed)
          | inr same ↦ rw same closed
        ]

    turn-Within :
        (c : Vertex → Bool) (key : String) (t : Neighbors)
        → IsClosed d.dependencies_to c
        → IsClosedSet d t
        → Within c (turn key t) ↔ (Within c t × (IsChanged key → c (kind, key) ≡ true))
    turn-Within c key t cl closed =
        elim (Bool-cases (is_changed (lookup key old_items) (lookup key new_items))) [
          | inl new ↦
              let step = add_affected_items-Within t (kind, key) c closed cl in
              rw new (λ h. ((step.0 h).0, λ _. (step.0 h).1), λ h. step.1 (h.0, h.1 refl))
          | inr same ↦ rw same (λ h. (h, λ e. cc), λ h. h.0)
        ]

    add_changed-IsClosed :
        (ks : List String) (t : Neighbors)
        → IsClosedSet d t
        → IsClosedSet d (add_changed order d kind old_items new_items ks t)
    unfolding add_changed
    add_changed-IsClosed [] t closed = closed
    add_changed-IsClosed (key ∷ ks) t closed =
        add_changed-IsClosed ks (turn key t) (turn-IsClosed key t closed)

    -- What a closed set has to hold for the keys of a list.
    abbrev Roots : (Vertex → Bool) → List String → Type 0
    Roots c ks = (key : String) → Mem key ks → IsChanged key → c (kind, key) ≡ true

    Roots-cons :
        (c : Vertex → Bool) (key : String) (ks : List String)
        → (IsChanged key → c (kind, key) ≡ true)
        → Roots c ks
        → Roots c (key ∷ ks)
    Roots-cons c key ks first rest j m = ∥∥₁_elim (mem-cons.0 m) goal-IsProp (λ x. elim x [
      | inl e ↦ subst (λ k. IsChanged k → c (kind, k) ≡ true) (sym e) first
      | inr k ↦ rest j k
    ])
      where
        goal-IsProp : IsProp (IsChanged j → c (kind, j) ≡ true)
        goal-IsProp = hlevel

    add_changed-Within :
        (c : Vertex → Bool)
        → IsClosed d.dependencies_to c
        → (ks : List String) (t : Neighbors) → IsClosedSet d t
        → Within c (add_changed order d kind old_items new_items ks t) ↔ (Within c t × Roots c ks)
    unfolding add_changed
    add_changed-Within c cl [] t closed = ((λ h. (h, λ key m. absurd (not-mem-nil m))), λ h. h.0)
    add_changed-Within c cl (key ∷ ks) t closed =
        let rest = add_changed-Within c cl ks (turn key t) (turn-IsClosed key t closed) in
        let first = turn-Within c key t cl closed in
        (
          (λ h. (
            (first.0 (rest.0 h).0).0,
            Roots-cons c key ks (first.0 (rest.0 h).0).1 (rest.0 h).1,
          )),
          (λ h.
              rest.1 (first.1 (h.0, h.1 key mem-cons_self), λ j m. h.1 j (mem-cons_of_mem key m))),
        )

    mem-new_keys :
        (key : String) (ks : List String)
        → has_key key old_items ≡ false
        → Mem key ks
        → Mem key (new_keys old_items ks)
    unfolding new_keys
    mem-new_keys key [] absent m = m
    mem-new_keys key (j ∷ ks) absent m = ∥∥₁_elim (mem-cons.0 m) Mem-prop (λ x. elim x [
      | inl e ↦
          subst (λ y. Mem key (if y then new_keys old_items ks else j ∷ new_keys old_items ks))
            (sym (subst (λ z. has_key z old_items ≡ false) e absent))
            (subst (λ z. Mem key (z ∷ new_keys old_items ks)) e mem-cons_self)
      | inr k ↦ elim (Bool-cases (has_key j old_items)) [
        | inl old ↦ rw old (mem-new_keys key ks absent k)
        | inr new ↦ rw new (mem-cons_of_mem j (mem-new_keys key ks absent k))
      ]
    ])

    -- The keys that the loop runs over.
    abbrev all_keys : List String
    all_keys =
        order.key_order (keys old_items) ++ new_keys old_items (order.key_order (keys new_items))

    IsChanged-listed : (key : String) → IsChanged key → Mem key all_keys
    unfolding is_changed
    IsChanged-listed key h = elim (Bool-cases (has_key key old_items)) [
      | inl old ↦ mem-append_left _ (
          (Perm.mem_iff (order.key_order_perm (keys old_items))).1 ((mem-keys key old_items).1 old))
      | inr absent ↦ mem-append_right (order.key_order (keys old_items)) (
          mem-new_keys key _ absent (
            (Perm.mem_iff (order.key_order_perm (keys new_items))).1 (
              (mem-keys key new_items).1
                (ground (arith, has_key_iff key old_items, has_key_iff key new_items, h, absent)))))
    ]

-- Of two items that may be missing, the new one is new, or the old one is gone, or the new one has the
-- higher version.
abbrev pub Differs : {A : Type 0} → Option (ItemDescriptor A) → Option (ItemDescriptor A) → Type 0
Differs {A} old new =
    ((old ≡ none) × (j : ItemDescriptor A) × (new ≡ some j))
    ⊎ (((i : ItemDescriptor A) × (old ≡ some i) × (new ≡ none))
        ⊎ ((i : ItemDescriptor A) × (j : ItemDescriptor A) × (old ≡ some i)
            × (new ≡ some j)
            × (ltb_ℤ i.version j.version ≡ true)))

is_changed-Differs :
    {A : Type 0} (old new : Option (ItemDescriptor A))
    → (is_changed old new ≡ true) ↔ Differs old new
unfolding is_changed
is_changed-Differs none none = (
  λ h. cc,
  λ x. elim x [ inl (e, j, f) ↦ cc | inr (inl (i, e, f)) ↦ cc | inr (inr (i, j, e, f, g)) ↦ cc ],
)
is_changed-Differs none (some j) = (λ h. inl (refl, j, refl), λ x. refl)
is_changed-Differs (some i) none = (λ h. inr (inl (i, refl, refl)), λ x. refl)
is_changed-Differs (some i) (some j) = (
  λ h. inr (inr (i, j, refl, refl, h)),
  λ x. elim x [
    | inl (e, k, f) ↦ cc
    | inr (inl (k, e, f)) ↦ cc
    | inr (inr (k, l, e, f, g)) ↦ ground (arith, e, f, g)
  ],
)

-- The items of a kind that the two data sets do not have alike.
abbrev pub IsChangedItem : {A : Type 0} → DataMap A → DataMap A → DataKind → String → Type 0
IsChangedItem old new kind key =
    Differs (lookup key (or_else (lookup kind old) [])) (lookup key (or_else (lookup kind new) []))

-- What is computed for two data sets: a set that no reference leaves, and the least of those that
-- hold each flag and each segment that is new, or gone, or of a higher version than before (Differs).
pub compute_changed_items_for_full_data_set-least :
    {A : Type 0} (order : MapOrder) (d : DependencyTracker) (old new : DataMap A)
    → IsClosedSet d (compute_changed_items_for_full_data_set order d old new)
      × ((c : Vertex → Bool)
          → IsClosed d.dependencies_to c
          → Within c (compute_changed_items_for_full_data_set order d old new) ↔ (
              ((key : String) → IsChangedItem old new features key → c (features, key) ≡ true)
              × ((key : String) → IsChangedItem old new segments key → c (segments, key) ≡ true)))
unfolding compute_changed_items_for_full_data_set add_changed_kinds has_key
compute_changed_items_for_full_data_set-least {A} order d old new = (all-IsClosed, within)
  where
    of : DataMap A → DataKind → Map String (ItemDescriptor A)
    of m kind = or_else (lookup kind m) []

    test :
        (kind : DataKind) (key : String)
        → IsChangedItem old new kind key
        → is_changed (lookup key (of old kind)) (lookup key (of new kind)) ≡ true
    test kind key = (is_changed-Differs (lookup key (of old kind)) (lookup key (of new kind))).1

    differs :
        (kind : DataKind) (key : String)
        → is_changed (lookup key (of old kind)) (lookup key (of new kind)) ≡ true
        → IsChangedItem old new kind key
    differs kind key = (is_changed-Differs (lookup key (of old kind)) (lookup key (of new kind))).0

    flag_keys : List String
    flag_keys = all_keys order d features (of old features) (of new features)

    segment_keys : List String
    segment_keys = all_keys order d segments (of old segments) (of new segments)

    flags : Neighbors
    flags = add_changed order d features (of old features) (of new features) flag_keys []

    empty-IsClosed : IsClosedSet d []
    empty-IsClosed x w h e = cc

    flags-IsClosed : IsClosedSet d flags
    flags-IsClosed =
        add_changed-IsClosed order d features (of old features) (of new features) flag_keys []
          empty-IsClosed

    all-IsClosed : IsClosedSet d (compute_changed_items_for_full_data_set order d old new)
    all-IsClosed =
        add_changed-IsClosed order d segments (of old segments) (of new segments) segment_keys flags
          flags-IsClosed

    within :
        (c : Vertex → Bool)
        → IsClosed d.dependencies_to c
        → Within c (compute_changed_items_for_full_data_set order d old new) ↔ (
            ((key : String) → IsChangedItem old new features key → c (features, key) ≡ true)
            × ((key : String) → IsChangedItem old new segments key → c (segments, key) ≡ true))
    within c cl =
        let first =
          add_changed-Within order d features (of old features) (of new features) c cl flag_keys []
            empty-IsClosed in
        let second =
          add_changed-Within order d segments (of old segments) (of new segments) c cl segment_keys
            flags flags-IsClosed in
        (
          (λ h. (
            (λ key changed.
                (first.0 (second.0 h).0).1 key
                  (IsChanged-listed order d features (of old features) (of new features) key
                    (test features key changed))
                  (test features key changed)),
            (λ key changed.
                (second.0 h).1 key
                  (IsChanged-listed order d segments (of old segments) (of new segments) key
                    (test segments key changed))
                  (test segments key changed)),
          )),
          (λ h. second.1 (
            first.1 ((λ x k. cc), λ key m changed. h.0 key (differs features key changed)),
            λ key m changed. h.1 key (differs segments key changed),
          )),
        )
