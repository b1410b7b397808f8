-- ===== src/Types.antt =====
-- subsystems/ldstoretypes/data_store_types.go, the data kinds of internal/datakinds, and the
-- DataStore interface of subsystems/data_store.go.
-- The payload of an item is an `interface{}` that the stores never inspect: here a type `A`.
use go_server_sdk.Prelude.{
  ℕ, String, ℤ, negsuc, Bool, true, false, ◌&&◌, Option, none, List, Eq, ◌==◌, nat_eq, string_eq,
  ◌≡◌, refl, ◌↔◌, arith,
}

-- A DataKind is compared by identity. The SDK's own kinds are `features` and `segments`; `other` is a
-- kind that an application defines, with an identity and the name that its GetName returns.
pub data DataKind : Type 0 where
  features segments : DataKind
  other : (ident : ℕ) (name : String) → DataKind

abbrev pub kind_beq : DataKind → DataKind → Bool
kind_beq features features = true
kind_beq segments segments = true
kind_beq (other i s) (other j t) = i == j && s == t
kind_beq _ _ = false

pub kind_beq_iff : (a b : DataKind) → (kind_beq a b ≡ true) ↔ (a ≡ b)
kind_beq_iff features features = (λ _. refl, λ _. refl)
kind_beq_iff segments segments = (λ _. refl, λ _. refl)
kind_beq_iff (other i s) (other j t) = ground (arith, nat_eq.beq_iff i j, string_eq.beq_iff s t)
kind_beq_iff features segments = (λ h. cc, λ h. cc)
kind_beq_iff features (other _ _) = (λ h. cc, λ h. cc)
kind_beq_iff segments features = (λ h. cc, λ h. cc)
kind_beq_iff segments (other _ _) = (λ h. cc, λ h. cc)
kind_beq_iff (other _ _) features = (λ h. cc, λ h. cc)
kind_beq_iff (other _ _) segments = (λ h. cc, λ h. cc)

instance abbrev pub kind_eq : Eq DataKind
kind_eq = record { beq = kind_beq; beq_iff = kind_beq_iff }

unfoldable pub get_name : DataKind → String
get_name features = "features"
get_name segments = "segments"
get_name (other _ name) = name

pub record ItemDescriptor (A : Type 0) : Type 0 where
  pub version : ℤ
  pub item : Option A

-- The value that stands for "no such item".
abbrev pub not_found : {A : Type 0} → ItemDescriptor A
not_found = record { version = negsuc 0; item = none }

-- The fields Key and Item of a KeyedItemDescriptor.
abbrev pub KeyedItemDescriptor : Type 0 → Type 0
KeyedItemDescriptor A = String × ItemDescriptor A

pub record Collection (A : Type 0) : Type 0 where
  pub kind : DataKind
  pub items : List (KeyedItemDescriptor A)

-- An `error`: nil, or a value with a message.
abbrev pub Error : Type 0
Error = Option String

-- The DataStore interface over the implementation's state `S`. Each operation returns the new state.
pub record DataStore (A S : Type 0) : Type 0 where
  pub init : List (Collection A) → S → Error × S
  pub get : DataKind → String → S → (ItemDescriptor A × Error) × S
  pub get_all : DataKind → S → (List (KeyedItemDescriptor A) × Error) × S
  pub upsert : DataKind → String → ItemDescriptor A → S → (Bool × Error) × S
  pub is_initialized : S → Bool × S
  pub is_status_monitoring_enabled : Bool
  pub close : S → Error × S
