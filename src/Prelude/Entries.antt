-- ===== src/Prelude/Entries.antt =====
-- A list of entries with distinct keys reads the same in every order.
use mathlib.Core.Path.{◌≡◌, refl, sym, ◌∙◌, ap}
use mathlib.Core.Bool.{false}
use mathlib.Core.Option.{Option, none, some}
use mathlib.Core.Logic.{◌⊎◌, inl, inr, ∥∥₁_elim}
use mathlib.Core.List.{List, [], ◌∷◌, Perm, Mem, Memᴰ}
use mathlib.Core.List.Perm
use native.Mathlib.Omega.{arith}
use go_server_sdk.Prelude.Tests.{if◌then◌else◌, Bool-cases, Option-cases}
use go_server_sdk.Prelude.Equality.{Eq}
use go_server_sdk.Prelude.Maps.{
  keys, lookup, has_key, NodupKeys, last_value, first_some, is_some, mem-lookup, mem-keys,
  has_key_iff,
}

module _ {K V : Type 0} ⦃e : Eq K⦄ where
  last_value-mem : (k : K) (v : V) (l : List (K × V)) → last_value k l ≡ some v → Memᴰ (k, v) l
  last_value-mem k v [] h = cc
  last_value-mem k v ((i, w) ∷ l) h = elim (Option-cases (last_value k l)) [
    | inl early ↦ elim (Bool-cases (e.beq i k)) [
      | inl same ↦
          let key : i ≡ k = (e.beq_iff i k).0 same in
          let value : w ≡ v = ground arith in Memᴰ.head (cc)
      | inr other ↦ cc (
          sym h
          ∙ ap (λ x. first_some x (if e.beq i k then some w else none)) early
          ∙ ap (λ b. if b then some w else none) other)
    ]
    | inr (x, late) ↦ Memᴰ.tail (last_value-mem k v l (ground arith))
  ]

  last_value-none : (k : K) (l : List (K × V)) → last_value k l ≡ none → has_key k l ≡ false
  unfolding has_key
  last_value-none k [] h = refl
  last_value-none k ((i, w) ∷ l) h = ground (arith, last_value-none k l)

  pub perm-last_value :
      IsSet V → (k : K) (l m : List (K × V)) → Perm l m → NodupKeys m → last_value k l ≡ lookup k m
  perm-last_value v_set k l m p n = elim (Option-cases (last_value k l)) [
    | inl absent ↦ absent ∙ sym (unread (Option-cases (lookup k m)) absent)
    | inr (v, found) ↦
        ∥∥₁_elim (Perm.subset p (k, v) ∣ last_value-mem k v l found ∣₁) (read_set _ _)
          (λ here. found ∙ sym (mem-lookup k v m n here))
  ]
    where
      read_set : IsSet (Option V)
      read_set = hlevel v_set

      unread :
          (lookup k m ≡ none) ⊎ ((v : V) × (lookup k m ≡ some v))
          → last_value k l ≡ none
          → lookup k m ≡ none
      unread (inl h) absent = h
      unread (inr (v, h)) absent =
          let here : Mem k (keys m) = (mem-keys k m).1 (has_key_iff k m ∙ ap is_some h) in
          let there = (mem-keys k l).0 (Perm.subset (Perm.map (λ x. x.0) (Perm.symm p)) k here) in
          cc (sym there ∙ last_value-none k l absent)
