-- ===== src/Prelude/Texts.antt =====
-- Concatenation of texts: what a prefix tells.
use Prim.Native.Nat.{ℕ}
use Prim.Native.Char.{Char, code}
use Prim.Native.String
use Prim.Native.String.{String}
use mathlib.Core.Path.{◌≡◌, ap}
use text.Mathlib.TextLemmas

infixr 65 ◌⧺◌
abbrev pub ◌⧺◌ : String → String → String
s ⧺ t = String.◌++◌ s t

abbrev pub first_code : String → ℕ
first_code String.[] = 0
first_code (String.◌∷◌ c s) = code c

-- A non-empty text keeps its first character.
pub first_code-append : (c : Char) (s t : String) → first_code (String.◌∷◌ c s ⧺ t) ≡ code c
first_code-append c s t = ap first_code (String.append.cons c s t)

pub append_cancel_left : (s t u : String) → s ⧺ t ≡ s ⧺ u → t ≡ u
append_cancel_left = TextLemmas.append_cancel_left
