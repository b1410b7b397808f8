-- ===== src/Toposort/Visits.antt =====
-- addWithDependenciesFirst only moves items from the map to the output, and it moves its start.
use mathlib.Core.List.{
  Perm, Mem, append_assoc, append-nil, map-append, mem-append, perm_append_singleton, mem-cons_self,
  map-eq-nil_iff,
}
use mathlib.Core.Logic.Or
use mathlib.Core.List.Perm
use go_server_sdk.Prelude.{
  ℕ, zero, suc, ◌≤◌, ◌<◌, String, string_eq, true, ◌&&◌, some, List, [], ◌∷◌, ◌++◌, Map, lookup,
  has_key, delete, insert_all, keys, size, NodupKeys, ◌≡◌, refl, sym, ◌∙◌, ap, arith, inl, inr,
  Bool-cases, Option-cases, has_key_iff, delete-perm, mem-keys, insert_all-NodupKeys, ◌⊎◌,
  delete-NodupKeys, size-delete, lookup-delete, is_some,
}
use go_server_sdk.Types.{DataKind, kind_eq, ItemDescriptor, KeyedItemDescriptor}
use go_server_sdk.Toposort.{
  Vertex, LdModel, MapOrder, Walk, visit_neighbors, ordered_neighbors, add_remaining,
  add_items_in_dependency_order, add_with_dependencies_first,
}

-- From one state of the walk to a later one.
pub record Step {A : Type 0} (w w' : Walk A) : Type 0 where
  pub perm : Perm (w'.remaining ++ w'.out) (w.remaining ++ w.out)
  pub nodup : NodupKeys w.remaining → NodupKeys w'.remaining
  pub smaller : size w'.remaining ≤ size w.remaining
  pub added : List (KeyedItemDescriptor A)
  pub grows : w'.out ≡ w.out ++ added
  pub shrinks :
      (k : String) (i : ItemDescriptor A)
      → lookup k w'.remaining ≡ some i
      → lookup k w.remaining ≡ some i

module _ {A : Type 0} where
  pub Step-refl : (w : Walk A) → Step w w
  Step-refl w = record {
    perm = Perm.refl _;
    nodup = λ h. h;
    smaller = omega arith;
    added = [];
    grows = sym (append-nil w.out);
    shrinks = λ k i h. h;
  }

  pub Step-trans : {u v w : Walk A} → Step u v → Step v w → Step u w
  Step-trans {u} p q = record {
    perm = Perm.trans q.perm p.perm;
    nodup = λ h. q.nodup (p.nodup h);
    smaller = omega arith;
    added = p.added ++ q.added;
    grows = rw (q.grows, p.grows) (append_assoc u.out p.added q.added);
    shrinks = λ k i h. p.shrinks k i (q.shrinks k i h);
  }

-- What a visit does from a state with an item under its key.
pub record Visit {A : Type 0} (key : String) (w w' : Walk A) : Type 0 where
  pub step : Step w w'
  pub fewer : size w'.remaining < size w.remaining
  pub placed : Mem key (keys w'.out)

size-eq-zero : {A : Type 0} (m : Map String (ItemDescriptor A)) → size m ≤ 0 → m ≡ []
size-eq-zero [] h = refl
size-eq-zero (x ∷ m) h = absurd (omega arith)

pub List-cases : {B : Type 0} (l : List B) → (l ≡ []) ⊎ ((x : B) × (r : List B) × (l ≡ x ∷ r))
List-cases [] = inl refl
List-cases (x ∷ r) = inr (x, r, refl)

module _ {A : Type 0} where
  pub present :
      (key : String) (m : Map String (ItemDescriptor A))
      → has_key key m ≡ true
      → (item : ItemDescriptor A) × (lookup key m ≡ some item)
  present key m h = elim (Option-cases (lookup key m)) [
    | inl absent ↦ cc (sym h ∙ has_key_iff key m ∙ ap is_some absent)
    | inr found ↦ found
  ]

  -- The state after the start has left the map.
  abbrev pub left : String → Walk A → Walk A
  left key w = record w { remaining = delete key w.remaining }

  -- The state after the start has joined the output.
  abbrev pub joined : String → ItemDescriptor A → Walk A → Walk A
  joined key item w = record w { out = w.out ++ (key, item) ∷ [] }

  joined-Visit :
      (key : String) (item : ItemDescriptor A) (w v : Walk A)
      → NodupKeys w.remaining
      → lookup key w.remaining ≡ some item
      → Step (left key w) v
      → Visit key w (joined key item v)
  joined-Visit key item w v n found st = record {
    step = record {
      perm =
          Perm.trans moved
            (Perm.append_right w.out (Perm.symm (delete-perm key item w.remaining n found)));
      nodup = λ h. st.nodup (delete-NodupKeys key w.remaining h);
      smaller = omega (arith, size-delete key item w.remaining found, st.smaller);
      added = st.added ++ (key, item) ∷ [];
      grows = rw st.grows (append_assoc w.out st.added ((key, item) ∷ []));
      shrinks = λ k i h. kept k i (st.shrinks k i h);
    };
    fewer = omega (arith, size-delete key item w.remaining found, st.smaller);
    placed = rw map-append (mem-append.1 (Or.inr mem-cons_self));
  }
    where
      moved :
          Perm
            (v.remaining ++ (v.out ++ (key, item) ∷ []))
            ((key, item) ∷ delete key w.remaining ++ w.out)
      moved =
          rw (← append_assoc)
            (Perm.trans (perm_append_singleton (key, item) _) (Perm.cons (key, item) st.perm))

      kept :
          (k : String) (i : ItemDescriptor A)
          → lookup k (delete key w.remaining) ≡ some i
          → lookup k w.remaining ≡ some i
      kept k i h = ground (arith, lookup-delete key k w.remaining)

module _ {A : Type 0} (kind : DataKind) (visit : String → Walk A → Walk A) (bound : ℕ)
    (visits : (key : String) (w : Walk A) (item : ItemDescriptor A)
      → NodupKeys w.remaining
      → lookup key w.remaining ≡ some item
      → size w.remaining ≤ bound
      → Visit key w (visit key w)) where
  pub taken-Visit :
      (dep : Vertex) (w : Walk A)
      → NodupKeys w.remaining
      → size w.remaining ≤ bound
      → (kind_eq.beq dep.0 kind && has_key dep.1 w.remaining) ≡ true
      → Visit dep.1 w (visit dep.1 w)
  taken-Visit dep w n le taken =
      let (item, found) = present dep.1 w.remaining (ground arith) in visits dep.1 w item n found le

  pub visit_neighbors-Step :
      (deps : List Vertex) (w : Walk A)
      → NodupKeys w.remaining
      → size w.remaining ≤ bound
      → Step w (visit_neighbors kind visit deps w)
  unfolding visit_neighbors
  visit_neighbors-Step [] w n le = Step-refl w
  visit_neighbors-Step (dep ∷ deps) w n le =
      elim (Bool-cases (kind_eq.beq dep.0 kind && has_key dep.1 w.remaining)) [
        | inl taken ↦ rw taken (
            let v = taken-Visit dep w n le taken in
            Step-trans v.step
              (visit_neighbors-Step deps (visit dep.1 w) (v.step.nodup n) (omega arith)))
        | inr skipped ↦ rw skipped (visit_neighbors-Step deps w n le)
      ]

module _ {A : Type 0} (model : LdModel A) (order : MapOrder) (kind : DataKind) where
  pub add_with_dependencies_first-Visit :
      (fuel : ℕ) (key : String) (w : Walk A) (item : ItemDescriptor A)
      → NodupKeys w.remaining
      → lookup key w.remaining ≡ some item
      → size w.remaining ≤ fuel
      → Visit key w (add_with_dependencies_first model order kind fuel key w)
  unfolding add_with_dependencies_first
  add_with_dependencies_first-Visit zero key w item n found le =
      absurd (omega (arith, size-delete key item w.remaining found))
  add_with_dependencies_first-Visit (suc fuel) key w item n found le = rw found (
      joined-Visit key item w _ n found (
        visit_neighbors-Step kind (add_with_dependencies_first model order kind fuel) fuel
          (add_with_dependencies_first-Visit fuel) (ordered_neighbors model order kind item)
          (left key w) (delete-NodupKeys key w.remaining n)
          (omega (arith, size-delete key item w.remaining found))))

  pub keys_empty : (m : Map String (ItemDescriptor A)) → order.key_order (keys m) ≡ [] → m ≡ []
  keys_empty m e =
      (map-eq-nil_iff _).0
        (Perm.eq-nil (Perm.trans (Perm.symm (order.key_order_perm (keys m))) (rw e (Perm.refl []))))

  pub key_present :
      (key : String) (rest : List String) (m : Map String (ItemDescriptor A))
      → order.key_order (keys m) ≡ key ∷ rest
      → (item : ItemDescriptor A) × (lookup key m ≡ some item)
  key_present key rest m e =
      present key m
        ((mem-keys key m).0 (Perm.subset (order.key_order_perm (keys m)) key (rw e mem-cons_self)))

  -- The outer loop empties the map, if it has fuel for each entry.
  pub add_remaining-Step :
      (fuel : ℕ) (w : Walk A)
      → NodupKeys w.remaining
      → size w.remaining ≤ fuel
      → Step w (add_remaining model order kind fuel w)
        × ((add_remaining model order kind fuel w).remaining ≡ [])
  unfolding add_remaining
  add_remaining-Step zero w n le = (Step-refl w, size-eq-zero w.remaining (omega arith))
  add_remaining-Step (suc fuel) w n le = elim (List-cases (order.key_order (keys w.remaining))) [
    | inl empty ↦ rw (empty, add_remaining) (Step-refl w, keys_empty w.remaining empty)
    | inr (key, rest, e) ↦
        let (item, found) = key_present key rest w.remaining e in
        let v =
          add_with_dependencies_first-Visit (size w.remaining) key w item n found (omega arith) in
        let (st, done) = add_remaining-Step fuel _ (v.step.nodup n) (omega (arith, v.fewer)) in
        rw (e, add_remaining) (Step-trans v.step st, done)
  ]

  -- Every item of the collection comes out once, with the descriptor that was given last for its key.
  pub add_items_in_dependency_order-perm :
      (items : List (KeyedItemDescriptor A))
      → Perm (add_items_in_dependency_order model order kind items) (insert_all items [])
  unfolding add_items_in_dependency_order
  add_items_in_dependency_order-perm items =
      let start = insert_all items [] in
      let (st, done) =
        add_remaining-Step (size start) (record { remaining = start; out = [] })
          (insert_all-NodupKeys items [] tt) (omega arith) in
      rw (done, append-nil) at (Step.perm st)
