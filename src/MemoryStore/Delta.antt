-- ===== src/MemoryStore/Delta.antt =====
-- ApplyDelta of internal/memorystorev2/memory_store.go: what a whole delta does to the contents.
use go_server_sdk.Prelude.{
  String, string_eq, Option, none, some, List, [], ◌∷◌, ◌++◌, if◌then◌else◌, Bool-cases, inl, inr,
  ◌≡◌, refl, sym, ◌∙◌, ap, arith, ◌⊎◌, ◌≤ℤ◌, ℤ, subst,
}
use mathlib.Core.List.{Memᴰ}
use go_server_sdk.Types.{DataKind, kind_eq, ItemDescriptor, KeyedItemDescriptor, Collection}
use go_server_sdk.MemoryStore.{
  Store, UpdatedMap, upsert, mark_updated, apply_items, apply_collections, apply_delta,
}
use go_server_sdk.MemoryStore.View.{view, same_item, supersedes, merge, view-upsert}

module _ {A : Type 0} where
  -- The items that a delta has for one kind and key, in their order.
  abbrev pub updates_in :
      DataKind → List (KeyedItemDescriptor A) → DataKind → String → List (ItemDescriptor A)
  updates_in kind [] k j = []
  updates_in kind ((key, item) ∷ items) k j =
      let rest = updates_in kind items k j in if same_item kind key k j then item ∷ rest else rest

  abbrev pub updates : List (Collection A) → DataKind → String → List (ItemDescriptor A)
  updates [] k j = []
  updates (c ∷ cs) k j = updates_in c.kind c.items k j ++ updates cs k j

  abbrev pub newest :
      Option (ItemDescriptor A) → List (ItemDescriptor A) → Option (ItemDescriptor A)
  newest old [] = old
  newest old (u ∷ us) = newest (merge old u) us

  newest-append :
      (old : Option (ItemDescriptor A)) (us vs : List (ItemDescriptor A))
      → newest old (us ++ vs) ≡ newest (newest old us) vs
  newest-append old [] vs = refl
  newest-append old (u ∷ us) vs = newest-append (merge old u) us vs

  view-apply_items :
      (kind : DataKind) (items : List (KeyedItemDescriptor A)) (s : Store A) (m : UpdatedMap)
      (k : DataKind) (j : String)
      → view (apply_items kind items (s, m)).0 k j ≡ newest (view s k j) (updates_in kind items k j)
  unfolding apply_items
  view-apply_items kind [] s m k j = refl
  view-apply_items kind ((key, item) ∷ items) s m k j =
      let (s', updated) = upsert kind key item s in
      elim (Bool-cases (same_item kind key k j)) [
        | inl same ↦ rw same (
            view-apply_items kind items s' (mark_updated kind key updated m) k j
            ∙ ap (λ o. newest o (updates_in kind items k j))
                (rw same at (view-upsert kind key item s k j)))
        | inr other ↦ rw other (
            view-apply_items kind items s' (mark_updated kind key updated m) k j
            ∙ ap (λ o. newest o (updates_in kind items k j))
                (rw other at (view-upsert kind key item s k j)))
      ]

  view-apply_collections :
      (cs : List (Collection A)) (acc : Store A × UpdatedMap) (k : DataKind) (j : String)
      → view (apply_collections cs acc).0 k j ≡ newest (view acc.0 k j) (updates cs k j)
  unfolding apply_collections
  view-apply_collections [] acc k j = refl
  view-apply_collections (c ∷ cs) acc k j =
      view-apply_collections cs (apply_items c.kind c.items acc) k j
      ∙ ap (λ o. newest o (updates cs k j)) (view-apply_items c.kind c.items acc.0 acc.1 k j)
      ∙ sym (newest-append (view acc.0 k j) (updates_in c.kind c.items k j) (updates cs k j))

  -- A delta leaves under every kind and key the newest of the old item and the delta's items.
  pub view-apply_delta :
      (cs : List (Collection A)) (s : Store A) (k : DataKind) (j : String)
      → view (apply_delta cs s).0 k j ≡ newest (view s k j) (updates cs k j)
  unfolding apply_delta
  view-apply_delta cs s k j = view-apply_collections cs (s, []) k j

  -- `o` holds an item whose version is at least `v`.
  abbrev pub AtLeast : ℤ → Option (ItemDescriptor A) → Type 0
  AtLeast v o = (x : ItemDescriptor A) × (o ≡ some x) × (v ≤ℤ x.version)

  AtLeast-merge :
      (v : ℤ) (o : Option (ItemDescriptor A)) (u : ItemDescriptor A)
      → AtLeast v o
      → AtLeast v (merge o u)
  AtLeast-merge v none u (x, e, le) = cc
  AtLeast-merge v (some y) u (x, e, le) = elim (Bool-cases (supersedes u (some y))) [
    | inl new ↦ (u, ground arith, ground arith)
    | inr old ↦ (y, ground arith, ground arith)
  ]

  AtLeast-merge_new :
      (o : Option (ItemDescriptor A)) (u : ItemDescriptor A) → AtLeast u.version (merge o u)
  AtLeast-merge_new none u = (u, refl, omega arith)
  AtLeast-merge_new (some y) u = elim (Bool-cases (supersedes u (some y))) [
    | inl new ↦ (u, ground arith, omega arith)
    | inr old ↦ (y, ground arith, ground arith)
  ]

  AtLeast-newest :
      (v : ℤ) (us : List (ItemDescriptor A)) (o : Option (ItemDescriptor A))
      → AtLeast v o
      → AtLeast v (newest o us)
  AtLeast-newest v [] o h = h
  AtLeast-newest v (u ∷ us) o h = AtLeast-newest v us (merge o u) (AtLeast-merge v o u h)

  newest-AtLeast_mem :
      {u : ItemDescriptor A} (us : List (ItemDescriptor A)) (o : Option (ItemDescriptor A))
      → Memᴰ u us
      → AtLeast u.version (newest o us)
  newest-AtLeast_mem [] o m = elim m [ ]
  newest-AtLeast_mem (v ∷ us) o (Memᴰ.head e) =
      AtLeast-newest _ us (merge o v) (
        subst (λ x. AtLeast (ItemDescriptor.version x) (merge o v)) (sym e) (AtLeast-merge_new o v))
  newest-AtLeast_mem (v ∷ us) o (Memᴰ.tail m) = newest-AtLeast_mem us (merge o v) m

  newest_from :
      (us : List (ItemDescriptor A)) (o : Option (ItemDescriptor A)) (x : ItemDescriptor A)
      → newest o us ≡ some x
      → (o ≡ some x) ⊎ Memᴰ x us
  newest_from [] o x e = inl e
  newest_from (u ∷ us) o x e = elim (newest_from us (merge o u) x e) [
    | inl now ↦ elim (Bool-cases (supersedes u o)) [
      | inl new ↦ let e : x ≡ u = ground arith in inr (Memᴰ.head e)
      | inr old ↦ inl (rw old at now)
    ]
    | inr later ↦ inr (Memᴰ.tail later)
  ]

  -- Whatever the store held under a kind and a key, and whatever the delta has for them, the store
  -- holds an item of at least that version afterwards.
  apply_delta-AtLeast :
      (cs : List (Collection A)) (s : Store A) (k : DataKind) (j : String) (u : ItemDescriptor A)
      → (view s k j ≡ some u) ⊎ Memᴰ u (updates cs k j)
      → AtLeast u.version (view (apply_delta cs s).0 k j)
  apply_delta-AtLeast cs s k j u h =
      subst (AtLeast u.version) (sym (view-apply_delta cs s k j)) (elim h [
        | inl held ↦ AtLeast-newest u.version (updates cs k j) _ (u, held, omega arith)
        | inr given ↦ newest-AtLeast_mem (updates cs k j) _ given
      ])

  -- What the store holds after a delta, it held before, or the delta has it for that kind and key.
  pub apply_delta_from :
      (cs : List (Collection A)) (s : Store A) (k : DataKind) (j : String) (x : ItemDescriptor A)
      → view (apply_delta cs s).0 k j ≡ some x
      → (view s k j ≡ some x) ⊎ Memᴰ x (updates cs k j)
  apply_delta_from cs s k j x e =
      newest_from (updates cs k j) (view s k j) x (sym (view-apply_delta cs s k j) ∙ e)
