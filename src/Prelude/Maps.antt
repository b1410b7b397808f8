-- ===== src/Prelude/Maps.antt =====
-- Go maps as association lists. A read of an absent key is `none`, and `m[k] = v` replaces.
use Prim.Native.Nat.{ℕ, suc, ◌≤◌, ◌<◌}
use mathlib.Core.Path.{◌≡◌, refl, sym, subst, subst₂, ap}
use mathlib.Core.Bool.{Bool, true, false}
use mathlib.Core.Option.{Option, none, some}
use mathlib.Core.Logic.{inl, inr}
use mathlib.Core.List.{List, [], ◌∷◌, map, Perm, Mem, Memᴰ, mem-cons_self, mem-cons_of_mem}
use mathlib.Core.Logic.{◌↔◌, ∥∥₁_elim}
use mathlib.Core.List.Perm
use native.Mathlib.Omega.{arith}
use go_server_sdk.Prelude.Tests.{if◌then◌else◌, Bool-cases}
use go_server_sdk.Prelude.Equality.{Eq}

abbrev pub Map : Type 0 → Type 0 → Type 0
Map K V = List (K × V)

abbrev pub is_some {ℓ} : {A : Type ℓ} → Option A → Bool
is_some none = false
is_some (some _) = true

-- The zero value of a missing entry.
abbrev pub or_else {ℓ} : {A : Type ℓ} → Option A → A → A
or_else none d = d
or_else (some a) d = a

abbrev pub map_option {ℓ κ} : {A : Type ℓ} {B : Type κ} → (A → B) → Option A → Option B
map_option f none = none
map_option f (some a) = some (f a)

abbrev pub first_some {ℓ} : {A : Type ℓ} → Option A → Option A → Option A
first_some none b = b
first_some (some a) b = some a

pub first_some-none {ℓ} : {A : Type ℓ} (o : Option A) → first_some o none ≡ o
first_some-none none = refl
first_some-none (some a) = refl

abbrev pub keys : {K V : Type 0} → Map K V → List K
keys m = map (λ entry. entry.0) m

-- `len(m)`
abbrev pub size : {K V : Type 0} → Map K V → ℕ
size [] = 0
size (x ∷ m) = suc (size m)

module _ {K V : Type 0} ⦃e : Eq K⦄ where
  -- `v, ok := m[k]`
  unfoldable pub lookup : K → Map K V → Option V
  lookup k [] = none
  lookup k ((j, v) ∷ m) = if e.beq j k then some v else lookup k m

  -- `_, ok := m[k]`
  unfoldable pub has_key : K → Map K V → Bool
  has_key k [] = false
  has_key k ((j, v) ∷ m) = if e.beq j k then true else has_key k m

  -- `m[k] = v`
  unfoldable pub insert : K → V → Map K V → Map K V
  insert k v [] = (k, v) ∷ []
  insert k v ((j, w) ∷ m) = if e.beq j k then (j, v) ∷ m else (j, w) ∷ insert k v m

  -- `delete(m, k)`
  unfoldable pub delete : K → Map K V → Map K V
  delete k [] = []
  delete k ((j, v) ∷ m) = let rest = delete k m in if e.beq j k then rest else (j, v) ∷ rest

  -- A loop `for _, x := range xs { m[x.Key] = x.Item }`.
  unfoldable pub insert_all : List (K × V) → Map K V → Map K V
  insert_all [] m = m
  insert_all ((k, v) ∷ xs) m = insert_all xs (insert k v m)

  -- The value that such a loop writes last.
  abbrev pub last_value : K → List (K × V) → Option V
  last_value k [] = none
  last_value k ((j, v) ∷ xs) = first_some (last_value k xs) (if e.beq j k then some v else none)

  -- No key occurs twice.
  abbrev pub NodupKeys : Map K V → Type 0
  NodupKeys [] = Unit
  NodupKeys ((k, v) ∷ m) = (has_key k m ≡ false) × NodupKeys m

  pub lookup-insert :
      (k j : K) (v : V) (m : Map K V)
      → lookup j (insert k v m) ≡ (if e.beq k j then some v else lookup j m)
  unfolding lookup insert
  lookup-insert k j v [] = refl
  lookup-insert k j v ((i, w) ∷ m) =
      ground (arith, e.beq_iff k j, e.beq_iff i k, e.beq_iff i j, lookup-insert k j v m)

  pub lookup-delete :
      (k j : K) (m : Map K V) → lookup j (delete k m) ≡ (if e.beq k j then none else lookup j m)
  unfolding lookup delete
  lookup-delete k j [] = ground arith
  lookup-delete k j ((i, w) ∷ m) =
      ground (arith, e.beq_iff k j, e.beq_iff i k, e.beq_iff i j, lookup-delete k j m)

  pub has_key-insert :
      (k j : K) (v : V) (m : Map K V)
      → has_key j (insert k v m) ≡ (if e.beq k j then true else has_key j m)
  unfolding has_key insert
  has_key-insert k j v [] = refl
  has_key-insert k j v ((i, w) ∷ m) =
      ground (arith, e.beq_iff k j, e.beq_iff i k, e.beq_iff i j, has_key-insert k j v m)

  pub has_key-delete :
      (k j : K) (m : Map K V) → has_key j (delete k m) ≡ (if e.beq k j then false else has_key j m)
  unfolding has_key delete
  has_key-delete k j [] = ground arith
  has_key-delete k j ((i, w) ∷ m) =
      ground (arith, e.beq_iff k j, e.beq_iff i k, e.beq_iff i j, has_key-delete k j m)

  pub has_key_iff : (k : K) (m : Map K V) → has_key k m ≡ is_some (lookup k m)
  unfolding has_key lookup
  has_key_iff k [] = refl
  has_key_iff k ((i, w) ∷ m) = ground (arith, has_key_iff k m)

  pub insert-NodupKeys : (k : K) (v : V) (m : Map K V) → NodupKeys m → NodupKeys (insert k v m)
  unfolding insert has_key
  insert-NodupKeys k v [] h = ground arith
  insert-NodupKeys k v ((i, w) ∷ m) h = elim (Bool-cases (e.beq i k)) [
    | inl same ↦ rw same h
    | inr other ↦ rw other (
      ground (arith, has_key-insert k i v m, e.beq_iff i k, e.beq_iff k i, h.0),
      insert-NodupKeys k v m h.1,
    )
  ]

  pub delete-NodupKeys : (k : K) (m : Map K V) → NodupKeys m → NodupKeys (delete k m)
  unfolding delete has_key
  delete-NodupKeys k [] h = tt
  delete-NodupKeys k ((i, w) ∷ m) h = elim (Bool-cases (e.beq i k)) [
    | inl same ↦ rw same (delete-NodupKeys k m h.1)
    | inr other ↦ rw other (ground (arith, has_key-delete k i m, h.0), delete-NodupKeys k m h.1)
  ]

  pub insert_all-NodupKeys :
      (xs : List (K × V)) (m : Map K V) → NodupKeys m → NodupKeys (insert_all xs m)
  unfolding insert_all
  insert_all-NodupKeys [] m h = h
  insert_all-NodupKeys ((k, v) ∷ xs) m h =
      insert_all-NodupKeys xs (insert k v m) (insert-NodupKeys k v m h)

  pub delete_absent : (k : K) (m : Map K V) → has_key k m ≡ false → delete k m ≡ m
  unfolding delete has_key
  delete_absent k [] h = refl
  delete_absent k ((i, w) ∷ m) h = ground (arith, delete_absent k m)

  -- Taking an entry out of a map leaves the others.
  pub delete-perm :
      (k : K) (v : V) (m : Map K V)
      → NodupKeys m
      → lookup k m ≡ some v
      → Perm m ((k, v) ∷ delete k m)
  unfolding delete lookup
  delete-perm k v [] h f = cc
  delete-perm k v ((i, w) ∷ m) h f = elim (Bool-cases (e.beq i k)) [
    | inl same ↦
        let value : w ≡ v = ground arith in
        rw same (
          subst (λ x. Perm ((i, w) ∷ m) ((k, v) ∷ x))
            (sym (delete_absent k m (subst (λ x. has_key x m ≡ false) (key same) h.0)))
            (subst₂ (λ x y. Perm ((i, w) ∷ m) ((x, y) ∷ m)) (key same) value (Perm.refl _)))
    | inr other ↦
        rw other (Perm.trans (Perm.cons _ (delete-perm k v m h.1 (ground arith))) (Perm.swap _ _ _))
  ]
    where
      key : e.beq i k ≡ true → i ≡ k
      key = (e.beq_iff i k).0

  pub lookup-insert_all :
      (j : K) (xs : List (K × V)) (m : Map K V)
      → lookup j (insert_all xs m) ≡ first_some (last_value j xs) (lookup j m)
  unfolding insert_all
  lookup-insert_all j [] m = refl
  lookup-insert_all j ((k, v) ∷ xs) m =
      ground (arith, lookup-insert_all j xs (insert k v m), lookup-insert k j v m)

  -- Where no key occurs twice, a map reads as the list of its entries.
  pub mem-lookup : (k : K) (v : V) (m : Map K V) → NodupKeys m → Memᴰ (k, v) m → lookup k m ≡ some v
  unfolding lookup
  mem-lookup k v [] h m = elim m [ ]
  mem-lookup k v ((i, w) ∷ r) h (Memᴰ.head p) =
      ground (arith, e.beq_iff i k, ap (λ x. x.0) p, ap (λ x. x.1) p)
  mem-lookup k v ((i, w) ∷ r) h (Memᴰ.tail m) =
      ground (arith, e.beq_iff i k, mem-lookup k v r h.1 m, has_key_iff k r, h.0)

  pub lookup-mem : (k : K) (v : V) (m : Map K V) → lookup k m ≡ some v → Memᴰ (k, v) m
  unfolding lookup
  lookup-mem k v [] f = cc
  lookup-mem k v ((i, w) ∷ r) f = elim (Bool-cases (e.beq i k)) [
    | inl same ↦ Memᴰ.head (cc ((e.beq_iff i k).0 same, rw same at f))
    | inr other ↦ Memᴰ.tail (lookup-mem k v r (rw other at f))
  ]

  pub size-delete_le : (k : K) (m : Map K V) → size (delete k m) ≤ size m
  unfolding delete
  size-delete_le k [] = omega arith
  size-delete_le k ((i, w) ∷ r) = ground (arith, size-delete_le k r)

  pub size-delete : (k : K) (v : V) (m : Map K V) → lookup k m ≡ some v → size (delete k m) < size m
  unfolding delete lookup
  size-delete k v [] f = cc
  size-delete k v ((i, w) ∷ r) f = ground (arith, size-delete k v r, size-delete_le k r)

  has_key_of_memᴰ : (k : K) (m : Map K V) → Memᴰ k (keys m) → has_key k m ≡ true
  unfolding has_key
  has_key_of_memᴰ k [] m = elim m [ ]
  has_key_of_memᴰ k ((i, w) ∷ r) (Memᴰ.head p) = ground (arith, e.beq_iff i k)
  has_key_of_memᴰ k ((i, w) ∷ r) (Memᴰ.tail m) = ground (arith, has_key_of_memᴰ k r m)

  mem_of_has_key : (k : K) (m : Map K V) → has_key k m ≡ true → Mem k (keys m)
  unfolding has_key
  mem_of_has_key k [] h = cc
  mem_of_has_key k ((i, w) ∷ r) h = elim (Bool-cases (e.beq i k)) [
    | inl same ↦ subst (λ x. Mem x (i ∷ keys r)) ((e.beq_iff i k).0 same) mem-cons_self
    | inr other ↦ mem-cons_of_mem i (mem_of_has_key k r (rw other at h))
  ]

  -- The keys of a map are those that it has.
  pub mem-keys : (k : K) (m : Map K V) → Mem k (keys m) ↔ (has_key k m ≡ true)
  mem-keys k m = (λ h. ∥∥₁_elim h (Bool-set _ _) (has_key_of_memᴰ k m), mem_of_has_key k m)
    where
      Bool-set : IsSet Bool
      Bool-set = hlevel
