-- ===== src/Persistent/Keys.antt =====
-- The wrapper's cache keys (dataStoreCacheKey and dataStoreAllItemsCacheKey of
-- internal/datastore/persistent_data_store_wrapper.go) do not collide for the SDK's kinds.

use go_server_sdk.Prelude.{
  String, string_eq, beq_sym, false, ◌&&◌, ◌≡◌, refl, sym, ap, ◌∙◌, arith, ◌⧺◌, first_code,
  first_code-append, nat_eq, ℕ, Bool-cases, inl, inr, append_cancel_left,
}
use go_server_sdk.Types.{DataKind, features, segments, other, kind_eq, get_name}
use go_server_sdk.Persistent.Cache.{data_store_cache_key, data_store_all_items_cache_key}

abbrev pub IsSdkKind : DataKind → Type 0
IsSdkKind features = Unit
IsSdkKind segments = Unit
IsSdkKind (other _ _) = ⊥

prefix_beq : (s t u : String) → string_eq.beq (s ⧺ t) (s ⧺ u) ≡ string_eq.beq t u
prefix_beq s t u = ground (
  arith,
  string_eq.beq_iff (s ⧺ t) (s ⧺ u),
  string_eq.beq_iff t u,
  append_cancel_left s t u,
  λ (e : t ≡ u). ap (λ x. s ⧺ x) e,
)

-- Texts that begin with different characters differ.
first_code-beq :
    (s t : String) (m n : ℕ)
    → first_code s ≡ m
    → first_code t ≡ n
    → nat_eq.beq m n ≡ false
    → string_eq.beq s t ≡ false
first_code-beq s t m n p q h = elim (Bool-cases (string_eq.beq s t)) [
  | inr differ ↦ differ
  | inl same ↦
      cc
        (sym h, (nat_eq.beq_iff m n).1 (sym p ∙ ap first_code ((string_eq.beq_iff s t).0 same) ∙ q))
]

features_first : (i : String) → first_code ("features:" ⧺ i) ≡ 102
features_first i = first_code-append "f" "eatures:" i

segments_first : (i : String) → first_code ("segments:" ⧺ i) ≡ 115
segments_first i = first_code-append "s" "egments:" i

all_first : (i : String) → first_code ("all:" ⧺ i) ≡ 97
all_first i = first_code-append "a" "ll:" i

-- Two items share a key if they have the same kind and the same key in it.
pub item_key-beq :
    (k l : DataKind) (i j : String)
    → IsSdkKind k
    → IsSdkKind l
    → string_eq.beq (data_store_cache_key k i) (data_store_cache_key l j)
      ≡ (kind_eq.beq k l && string_eq.beq i j)
unfolding get_name
item_key-beq features features i j h g = prefix_beq "features:" i j
item_key-beq segments segments i j h g = prefix_beq "segments:" i j
item_key-beq features segments i j h g =
    first_code-beq _ _ 102 115 (features_first i) (segments_first j) refl
item_key-beq segments features i j h g =
    first_code-beq _ _ 115 102 (segments_first i) (features_first j) refl
item_key-beq (other _ _) l i j h g = elim h [ ]
item_key-beq features (other _ _) i j h g = elim g [ ]
item_key-beq segments (other _ _) i j h g = elim g [ ]

-- No item has the key of a list of all items.
pub item_key-all_key :
    (k l : DataKind) (i : String)
    → IsSdkKind k
    → string_eq.beq (data_store_cache_key k i) (data_store_all_items_cache_key l) ≡ false
unfolding get_name
item_key-all_key features l i h =
    first_code-beq _ _ 102 97 (features_first i) (all_first (get_name l)) refl
item_key-all_key segments l i h =
    first_code-beq _ _ 115 97 (segments_first i) (all_first (get_name l)) refl
item_key-all_key (other _ _) l i h = elim h [ ]

pub all_key-item_key :
    (k l : DataKind) (i : String)
    → IsSdkKind k
    → string_eq.beq (data_store_all_items_cache_key l) (data_store_cache_key k i) ≡ false
all_key-item_key k l i h = beq_sym {A = String} _ _ ∙ item_key-all_key k l i h

pub all_key-beq :
    (k l : DataKind)
    → IsSdkKind k
    → IsSdkKind l
    → string_eq.beq (data_store_all_items_cache_key k) (data_store_all_items_cache_key l)
      ≡ kind_eq.beq k l
unfolding get_name
all_key-beq features features h g = refl
all_key-beq segments segments h g = refl
all_key-beq features segments h g = refl
all_key-beq segments features h g = refl
all_key-beq (other _ _) l h g = elim h [ ]
all_key-beq features (other _ _) h g = elim g [ ]
all_key-beq segments (other _ _) h g = elim g [ ]
