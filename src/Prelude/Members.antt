-- ===== src/Prelude/Members.antt =====
-- Lists of numbers as sets: membership as a test, and that no number occurs twice.
use Prim.Native.Nat.{ℕ}
use mathlib.Core.Path.{◌≡◌}
use mathlib.Core.Bool.{Bool, false, ◌||◌}
use mathlib.Core.List.{List, [], ◌∷◌, ◌++◌}
use native.Mathlib.Omega.{arith}
use go_server_sdk.Prelude.Equality.{◌==◌, nat_eq}

abbrev pub member : ℕ → List ℕ → Bool
member c [] = false
member c (d ∷ ds) = d == c || member c ds

abbrev pub IsDistinct : List ℕ → Type 0
IsDistinct [] = Unit
IsDistinct (c ∷ cs) = (member c cs ≡ false) × IsDistinct cs

pub member-append : (c d : ℕ) (cs : List ℕ) → member c (cs ++ d ∷ []) ≡ (member c cs || d == c)
member-append c d [] = ground arith
member-append c d (x ∷ cs) = ground (arith, member-append c d cs)

pub append-IsDistinct :
    (d : ℕ) (cs : List ℕ) → IsDistinct cs → member d cs ≡ false → IsDistinct (cs ++ d ∷ [])
append-IsDistinct d [] h k = ground arith
append-IsDistinct d (x ∷ cs) h k = (
  ground (arith, member-append x d cs, nat_eq.beq_iff d x, nat_eq.beq_iff x d, h.0),
  append-IsDistinct d cs h.1 (ground arith),
)
