-- ===== src/Prelude/Equality.antt =====
-- Go's `==` on comparable types: a test with the proof that it decides equality.
use Prim.Native.Nat.{ℕ}
use Prim.Native.String.{String}
use mathlib.Core.Path.{◌≡◌, refl}
use mathlib.Core.Bool.{Bool, true}
use mathlib.Core.Logic.{◌↔◌, inl, inr}
use std.HLevel.{hedberg}
use native.Mathlib.Omega.{arith}
use text.Mathlib.Text
use text.Mathlib.TextEquality
use go_server_sdk.Prelude.Tests.{nat_beq, nat_beq_iff, Bool-cases}

pub record Eq {ℓ} (A : Type ℓ) : Type ℓ where
  pub beq : A → A → Bool
  pub beq_iff : (a b : A) → (beq a b ≡ true) ↔ (a ≡ b)

module _ {ℓ} {A : Type ℓ} ⦃e : Eq A⦄ where
  pub beq_refl : (a : A) → e.beq a a ≡ true
  beq_refl a = (e.beq_iff a a).1 refl

  pub beq_sym : (a b : A) → e.beq a b ≡ e.beq b a
  beq_sym a b = ground (arith, e.beq_iff a b, e.beq_iff b a)

  -- A type with such a test is a set.
  pub Eq-set : IsSet A
  Eq-set = hedberg (λ a b. elim (Bool-cases (e.beq a b)) [
    | inl same ↦ yes ((e.beq_iff a b).0 same)
    | inr other ↦ no (λ p. cc (other, (e.beq_iff a b).1 p))
  ])

  infix 50 ◌==◌
  abbrev pub ◌==◌ : A → A → Bool
  a == b = e.beq a b

instance abbrev pub string_eq : Eq String
string_eq = record { beq = Text.◌==◌; beq_iff = TextEquality.eq_iff }

instance abbrev pub nat_eq : Eq ℕ
nat_eq = record { beq_iff = nat_beq_iff; beq = nat_beq }
