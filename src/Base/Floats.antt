-- ===== src/Base/Floats.antt =====
-- Python's `float`: the operations that the services use, as an interface, and the laws of its
-- order that the theorems name.
use Prim.Native.Nat.{ℕ, ◌+◌, ◌-◌, ◌*◌, ◌/◌}
use Prim.Native.String.{String}
use mathlib.Core.Option.{Option, none}
use mathlib.Core.Path.{◌≡◌}
use mathlib.Core.Bool.{Bool, true, false, not, ◌&&◌}
use native.Mathlib.Omega.{arith}
use broker_bridge.Base.Tests.{ltb, if◌then◌else◌}

-- Python's `int`; `negsuc n` is -(n + 1).
pub data ℤ : Type 0 where
  pos : ℕ → ℤ
  negsuc : ℕ → ℤ

pub record Real (F : Type 0) : Type 0 where
  pub of_int : ℤ → F
  pub add : F → F → F
  pub sub : F → F → F
  pub mul : F → F → F
  pub div : F → F → F
  pub lt : F → F → Bool
  -- `round(x, digits)`
  pub round : F → ℕ → F
  -- `str(x)`, and `float(text)`, which refuses some texts
  pub text_of : F → String
  pub of_text : String → Option F
  -- `int(x)`, and `int(text)`, which refuses some texts
  pub to_int : F → ℤ
  pub int_of_text : String → Option ℤ

-- No value that the program computes is a NaN, so the order is a strict weak one, and small whole
-- numbers are represented exactly.
pub record IsOrdered (F : Type 0) ⦃r : Real F⦄ : Type 0 where
  pub irrefl : (x : F) → r.lt x x ≡ false
  pub trans : (x y z : F) → r.lt x y ≡ true → r.lt y z ≡ true → r.lt x z ≡ true
  pub le_trans : (x y z : F) → r.lt y x ≡ false → r.lt z y ≡ false → r.lt z x ≡ false
  pub exact : (a b : ℕ) → r.lt (r.of_int (pos a)) (r.of_int (pos b)) ≡ ltb a b

module _ {F : Type 0} ⦃r : Real F⦄ where
  abbrev pub nat : ℕ → F
  nat n = r.of_int (pos n)

  abbrev pub lt : F → F → Bool
  lt = r.lt

  -- `x <= y` and `x >= y` away from NaN
  abbrev pub le : F → F → Bool
  le x y = not (r.lt y x)

  -- `max(a, b)` keeps the first of two equal values, and so does `min(a, b)`.
  abbrev pub fmax : F → F → F
  fmax a b = if r.lt a b then b else a

  abbrev pub fmin : F → F → F
  fmin a b = if r.lt b a then b else a

  abbrev pub is_zero : F → Bool
  is_zero x = not (r.lt x (nat 0)) && not (r.lt (nat 0) x)

abbrev pub to_nat : ℤ → ℕ
to_nat (pos n) = n
to_nat (negsuc n) = 0

-- The laws can be met: whole numbers, with everything below zero at zero.
instance abbrev pub whole_numbers : Real ℕ
whole_numbers = record {
  of_int = to_nat;
  add = λ a b. a + b;
  sub = λ a b. a - b;
  mul = λ a b. a * b;
  div = λ a b. a / b;
  lt = ltb;
  round = λ x n. x;
  text_of = λ n. "";
  of_text = λ s. none;
  to_int = λ n. pos n;
  int_of_text = λ s. none;
}

pub whole_numbers-IsOrdered : IsOrdered ℕ
whole_numbers-IsOrdered = ground arith
