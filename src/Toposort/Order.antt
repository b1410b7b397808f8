-- ===== src/Toposort/Order.antt =====
-- The order of addItemsInDependencyOrder: where the references between the items have no cycle, each
-- item comes after every item of the collection that it refers to.
use mathlib.Core.List.{
  Mem, append-nil, map-append, mem-append, mem-cons, mem-cons_self, mem-cons_of_mem, perm_middle,
  Mem-prop, not-mem-nil,
}
use mathlib.Core.List.Perm
use mathlib.Core.Logic.Or
use go_server_sdk.Prelude.{
  ℕ, zero, suc, ◌≤◌, ◌<◌, String, string_eq, Bool, true, false, ◌&&◌, some, List, [], ◌∷◌, ◌++◌,
  Map, lookup, has_key, delete, insert_all, keys, size, NodupKeys, if◌then◌else◌, ◌≡◌, sym, ◌∙◌, ap,
  subst, arith, inl, inr, Bool-cases, has_key_iff, delete-perm, delete-NodupKeys, size-delete,
  lookup-delete, is_some, mem-keys, insert_all-NodupKeys,
}
use go_server_sdk.Types.{DataKind, kind_eq, ItemDescriptor, KeyedItemDescriptor}
use go_server_sdk.Toposort.{
  Vertex, LdModel, MapOrder, Walk, get_neighbors, visit_neighbors, ordered_neighbors, add_remaining,
  add_items_in_dependency_order, add_with_dependencies_first,
}
use go_server_sdk.Toposort.Visits.{
  Step, Visit, taken-Visit, visit_neighbors-Step, add_with_dependencies_first-Visit, left, present,
  key_present, List-cases,
}

module _ {A : Type 0} (model : LdModel A) (kind : DataKind)
    (given : Map String (ItemDescriptor A)) where
  -- An item of kind `kind` refers to the given item with that key.
  pub record RefersTo (item : ItemDescriptor A) (v : Vertex) : Type 0 where
    pub neighbor : Mem v (keys (get_neighbors model kind item))
    pub same_kind : v.0 ≡ kind
    pub listed : Mem v.1 (keys given)

  -- Each item stands after the items that it refers to; `seen` are the keys before the list.
  abbrev pub IsOrdered : List String → List (KeyedItemDescriptor A) → Type 0
  IsOrdered seen [] = Unit
  IsOrdered seen ((key, item) ∷ rest) =
      ((v : Vertex) → RefersTo item v → Mem v.1 seen) × IsOrdered (key ∷ seen) rest

  -- `rank` puts each item above those that it refers to, so that there is no cycle.
  abbrev pub IsRanked : (String → ℕ) → Type 0
  IsRanked rank =
      (key : String) (item : ItemDescriptor A)
      → lookup key given ≡ some item
      → (v : Vertex) → RefersTo item v
      → rank v.1 < rank key

  IsOrdered-snoc :
      (seen : List String) (xs : List (KeyedItemDescriptor A)) (key : String)
      (item : ItemDescriptor A)
      → IsOrdered seen xs
      → ((v : Vertex) → RefersTo item v → Mem v.1 (keys xs ++ seen))
      → IsOrdered seen (xs ++ (key, item) ∷ [])
  IsOrdered-snoc seen [] key item h placed = (placed, tt)
  IsOrdered-snoc seen ((k, i) ∷ xs) key item h placed = (
    h.0,
    IsOrdered-snoc (k ∷ seen) xs key item h.1
        (λ v r. Perm.subset (Perm.symm (perm_middle {a = k} (keys xs) seen)) v.1 (placed v r)),
  )

  module _ (rank : String → ℕ) (ranked : IsRanked rank) where
    -- A state from which items of a rank below `bound` may be visited: the ones that are neither in
    -- the map nor in the output, which are on the call stack, have at least that rank.
    record Ready (bound : ℕ) (w : Walk A) : Type 0 where
      nodup : NodupKeys w.remaining
      from :
          (k : String) (i : ItemDescriptor A)
          → lookup k w.remaining ≡ some i
          → lookup k given ≡ some i
      cover :
          (j : String) → Mem j (keys given) → rank j < bound → Mem j (keys (w.remaining ++ w.out))
      ordered : IsOrdered [] w.out

    Ready-weaken : {a b : ℕ} {w : Walk A} → a ≤ b → Ready b w → Ready a w
    Ready-weaken le r = record {
      nodup = r.nodup;
      from = r.from;
      cover = λ j m lt. r.cover j m (omega arith);
      ordered = r.ordered;
    }

    Ready-Step : {b : ℕ} {w w' : Walk A} → Ready b w → Step w w' → IsOrdered [] w'.out → Ready b w'
    Ready-Step r st o = record {
      nodup = st.nodup r.nodup;
      from = λ k i h. r.from k i (st.shrinks k i h);
      cover = λ j m lt. Perm.subset (Perm.map (λ x. x.0) (Perm.symm st.perm)) j (r.cover j m lt);
      ordered = o;
    }

    listed_of :
        {b : ℕ} {w : Walk A}
        → Ready b w
        → (k : String) (i : ItemDescriptor A) → lookup k w.remaining ≡ some i
        → Mem k (keys given)
    listed_of r k i h = (mem-keys k given).1 (has_key_iff k given ∙ ap is_some (r.from k i h))

    grown : {w w' : Walk A} {j : String} → Step w w' → Mem j (keys w.out) → Mem j (keys w'.out)
    grown st m = rw (st.grows, map-append) (mem-append.1 (Or.inl m))

    -- An item that the loop skips is in the output already.
    skipped_placed :
        {b : ℕ} {w : Walk A}
        → Ready b w
        → (j : String) → Mem j (keys given)
        → rank j < b
        → has_key j w.remaining ≡ false
        → Mem j (keys w.out)
    skipped_placed {w = w} r j m lt gone =
        Or.elim Mem-prop (mem-append.0 (rw map-append at (r.cover j m lt)))
          (λ waits. absurd (clash (sym ((mem-keys j w.remaining).0 waits) ∙ gone))) (λ done. done)
      where
        clash : true ≡ false → ⊥
        clash e = cc

    skip_gone :
        (dep : Vertex) (w : Walk A)
        → dep.0 ≡ kind
        → (kind_eq.beq dep.0 kind && has_key dep.1 w.remaining) ≡ false
        → has_key dep.1 w.remaining ≡ false
    skip_gone dep w same skipped = rw ((kind_eq.beq_iff dep.0 kind).1 same) at skipped

    -- The loop over an item's neighbors, if each recursive call keeps the order.
    module _ (visit : String → Walk A → Walk A) (fuel : ℕ)
        (visits : (key : String) (w : Walk A) (item : ItemDescriptor A)
          → NodupKeys w.remaining
          → lookup key w.remaining ≡ some item
          → size w.remaining ≤ fuel
          → Visit key w (visit key w))
        (keeps : (key : String) (w : Walk A) (item : ItemDescriptor A)
          → Ready (suc (rank key)) w
          → lookup key w.remaining ≡ some item
          → size w.remaining ≤ fuel
          → IsOrdered [] (visit key w).out) where
      abbrev Bounded : ℕ → List Vertex → Type 0
      Bounded b deps = (v : Vertex) → Mem v deps → v.0 ≡ kind → Mem v.1 (keys given) → rank v.1 < b

      abbrev Placed : List Vertex → Walk A → Type 0
      Placed deps w =
          (v : Vertex) → Mem v deps → v.0 ≡ kind → Mem v.1 (keys given) → Mem v.1 (keys w.out)

      abbrev LoopDone : List Vertex → Walk A → Type 0
      LoopDone deps w = IsOrdered [] w.out × Placed deps w

      abbrev LoopFrom : Vertex → List Vertex → Walk A → Bool → Type 0
      LoopFrom dep deps w taken =
          LoopDone (dep ∷ deps)
            (visit_neighbors kind visit deps (if taken then visit dep.1 w else w))

      Placed-cons :
          (dep : Vertex) (deps : List Vertex) (w : Walk A)
          → (dep.0 ≡ kind → Mem dep.1 (keys given) → Mem dep.1 (keys w.out))
          → Placed deps w
          → Placed (dep ∷ deps) w
      Placed-cons dep deps w first rest v m same listed =
          Or.elim Mem-prop (mem-cons.0 m)
            (λ e.
              subst (λ x. Mem x.1 (keys w.out)) (sym e)
                (first (subst (λ x. x.0 ≡ kind) e same)
                  (subst (λ x. Mem x.1 (keys given)) e listed)))
            (λ later. rest v later same listed)

      loop :
          (b : ℕ) (deps : List Vertex) (w : Walk A)
          → Ready b w
          → Bounded b deps
          → size w.remaining ≤ fuel
          → LoopDone deps (visit_neighbors kind visit deps w)
      unfolding visit_neighbors
      loop b [] w r bounded le = (r.ordered, λ v m _ _. absurd (not-mem-nil m))
      loop b (dep ∷ deps) w r bounded le =
          elim (Bool-cases (kind_eq.beq dep.0 kind && has_key dep.1 w.remaining)) [
            | inl taken ↦
                let (item, found) = present dep.1 w.remaining (ground arith) in
                let same : dep.0 ≡ kind = (kind_eq.beq_iff dep.0 kind).0 (ground arith) in
                let v = taken-Visit kind visit fuel visits dep w r.nodup le taken in
                let lt : rank dep.1 < b =
                  bounded dep mem-cons_self same (listed_of r dep.1 item found) in
                let o = keeps dep.1 w item (Ready-weaken lt r) found le in
                let (ends, placed) =
                  loop b deps (visit dep.1 w) (Ready-Step r v.step o)
                    (λ u m. bounded u (mem-cons_of_mem dep m)) (omega (arith, v.fewer)) in
                let st =
                  visit_neighbors-Step kind visit fuel visits deps (visit dep.1 w)
                    (v.step.nodup r.nodup) (omega (arith, v.fewer)) in
                subst (LoopFrom dep deps w) (sym taken) (
                  ends,
                  Placed-cons dep deps (visit_neighbors kind visit deps (visit dep.1 w))
                      (λ _ _. grown st v.placed) placed,
                )
            | inr skipped ↦
                let (ends, placed) =
                  loop b deps w r (λ u m. bounded u (mem-cons_of_mem dep m)) le in
                let st = visit_neighbors-Step kind visit fuel visits deps w r.nodup le in
                subst (LoopFrom dep deps w) (sym skipped) (
                  ends,
                  Placed-cons dep deps (visit_neighbors kind visit deps w)
                      (λ same listed. grown st (
                        skipped_placed r dep.1 listed (bounded dep mem-cons_self same listed)
                          (skip_gone dep w same skipped)))
                      placed,
                )
          ]

    left-Ready :
        (key : String) (item : ItemDescriptor A) (w : Walk A)
        → Ready (suc (rank key)) w
        → lookup key w.remaining ≡ some item
        → Ready (rank key) (left key w)
    left-Ready key item w r found = record {
      nodup = delete-NodupKeys key w.remaining r.nodup;
      from = λ k i h. r.from k i (undelete k i h);
      cover = λ j m lt.
          Or.elim Mem-prop
            (mem-cons.0 (
              Perm.subset
                (Perm.map (λ x. x.0)
                  (Perm.append_right w.out (delete-perm key item w.remaining r.nodup found)))
                j (r.cover j m (omega arith))))
            (λ e. absurd (not_below e lt)) (λ rest. rest);
      ordered = r.ordered;
    }
      where
        undelete :
            (k : String) (i : ItemDescriptor A)
            → lookup k (delete key w.remaining) ≡ some i
            → lookup k w.remaining ≡ some i
        undelete k i h = ground (arith, lookup-delete key k w.remaining)

        not_below : {j : String} → j ≡ key → rank j < rank key → ⊥
        not_below e lt = absurd (omega (arith, ap rank e))

    visit-IsOrdered :
        (order : MapOrder) (fuel : ℕ) (key : String) (w : Walk A) (item : ItemDescriptor A)
        → Ready (suc (rank key)) w
        → lookup key w.remaining ≡ some item
        → size w.remaining ≤ fuel
        → IsOrdered [] (add_with_dependencies_first model order kind fuel key w).out
    unfolding add_with_dependencies_first
    visit-IsOrdered order zero key w item r found le =
        absurd (omega (arith, size-delete key item w.remaining found))
    visit-IsOrdered order (suc fuel) key w item r found le =
        let (ends, placed) =
          loop (add_with_dependencies_first model order kind fuel) fuel
            (add_with_dependencies_first-Visit model order kind fuel) (visit-IsOrdered order fuel)
            (rank key) (ordered_neighbors model order kind item) (left key w)
            (left-Ready key item w r found)
            (λ v m same listed. ranked key item (r.from key item found) v (record {
              neighbor = Perm.subset (order.vertex_order_perm _) v m;
              same_kind = same;
              listed = listed;
            }))
            (omega (arith, size-delete key item w.remaining found)) in
        rw found (
          IsOrdered-snoc [] _ key item ends (λ v refers. rw append-nil (
            placed v (Perm.subset (Perm.symm (order.vertex_order_perm _)) v refers.neighbor)
              refers.same_kind refers.listed)))

    remaining-IsOrdered :
        (order : MapOrder) (fuel : ℕ) (w : Walk A)
        → ((b : ℕ) → Ready b w)
        → IsOrdered [] (add_remaining model order kind fuel w).out
    unfolding add_remaining
    remaining-IsOrdered order zero w r = Ready.ordered (r 0)
    remaining-IsOrdered order (suc fuel) w r =
        elim (List-cases (order.key_order (keys w.remaining))) [
          | inl empty ↦ rw (empty, add_remaining) (Ready.ordered (r 0))
          | inr (key, rest, e) ↦
              let (item, found) = key_present model order kind key rest w.remaining e in
              let v =
                add_with_dependencies_first-Visit model order kind (size w.remaining) key w item
                  (Ready.nodup (r 0)) found (omega arith) in
              let o =
                visit-IsOrdered order (size w.remaining) key w item (r (suc (rank key))) found
                  (omega arith) in
              rw (e, add_remaining)
                (remaining-IsOrdered order fuel _ (λ b. Ready-Step (r b) v.step o))
        ]

-- Where a rank puts each item of the collection above those of it that it refers to, so that there
-- is no cycle, each item of the output stands after all those that it refers to.
pub add_items_in_dependency_order-IsOrdered :
    {A : Type 0} (model : LdModel A) (order : MapOrder) (kind : DataKind)
    (items : List (KeyedItemDescriptor A)) (rank : String → ℕ)
    → IsRanked model kind (insert_all items []) rank
    → IsOrdered model kind
        (insert_all items [])
        []
        (add_items_in_dependency_order model order kind items)
unfolding add_items_in_dependency_order
add_items_in_dependency_order-IsOrdered model order kind items rank ranked =
    remaining-IsOrdered model kind (insert_all items []) rank ranked order
      (size (insert_all items [])) (record { remaining = insert_all items []; out = [] })
      (λ b. record {
        nodup = insert_all-NodupKeys items [] tt;
        from = λ k i h. h;
        cover = λ j m lt. rw append-nil m;
        ordered = tt;
      })
