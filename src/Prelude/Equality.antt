-- ===== src/Prelude/Equality.antt =====
-- The operator `==`, for the types whose equality the program tests.
use Prim.Native.Nat.{ℕ}
use Prim.Native.String.{String}
use mathlib.Core.Path.{◌≡◌}
use mathlib.Core.Logic.{◌↔◌}
use mathlib.Core.Bool.{Bool, true}
use text.Mathlib.Text.{◌==◌ as text_test}
use text.Mathlib.TextEquality.{eq_iff}
use chaosplane.Prelude.Tests.{nat_beq, nat_beq_iff}

-- A test, and that it decides equality.
pub record Eq (A : Type 0) : Type 0 where
  pub test : A → A → Bool
  pub decides : (x y : A) → (test x y ≡ true) ↔ (x ≡ y)

instance abbrev pub string_eq : Eq String
string_eq = record { test = text_test; decides = eq_iff }

instance abbrev pub nat_eq : Eq ℕ
nat_eq = record { test = nat_beq; decides = nat_beq_iff }

infix 50 ◌==◌
abbrev pub ◌==◌ : {A : Type 0} ⦃i : Eq A⦄ → A → A → Bool
◌==◌ ⦃i⦄ x y = i.test x y
