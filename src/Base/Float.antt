-- ===== src/Base/Float.antt =====
-- Python's floats, as far as the modules use them: the values stay abstract, and what a theorem needs
-- of the operations is a field of the record.
use soc_one.Base.Tests.{if◌then◌else◌, leb}
use Prim.Native.Nat.{ℕ, ◌+◌, ◌-◌, ◌*◌, ◌/◌}
use native.Mathlib.Omega.{arith}
use mathlib.Core.Path.{◌≡◌}
use mathlib.Core.Bool.{Bool, true, false}

pub record Float : Type 1 where
  pub F : Type 0
  -- A literal: the first number over the second.
  pub ratio : ℕ → ℕ → F
  pub plus : F → F → F
  pub minus : F → F → F
  pub times : F → F → F
  pub over : F → F → F
  -- `round(x, 4)`
  pub round4 : F → F
  pub at_most : F → F → Bool
  -- Two floats of the program are never NaN, and are compared both ways round.
  pub at_most_total : (a b : F) → at_most a b ≡ false → at_most b a ≡ true

module _ (fl : Float) where
  open fl use {F, at_most}

  -- `min(a, b)` and `max(a, b)`: the first argument where the two are equal.
  abbrev pub fmin : F → F → F
  fmin a b = if at_most a b then a else b

  abbrev pub fmax : F → F → F
  fmax a b = if at_most b a then a else b

pub flip_le : (a b : ℕ) → leb a b ≡ false → leb b a ≡ true
flip_le a b h = ground arith

-- Fixed-point numbers with four digits, for runs at concrete inputs.
abbrev pub fixed4 : Float
fixed4 = record {
  F = ℕ;
  ratio = λ a b. a * 10000 / b;
  plus = λ a b. a + b;
  minus = λ a b. a - b;
  times = λ a b. a * b / 10000;
  over = λ a b. a * 10000 / b;
  round4 = λ a. a;
  at_most = leb;
  at_most_total = flip_le;
}
