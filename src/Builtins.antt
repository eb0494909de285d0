-- ===== src/Builtins.antt =====
-- The functions of src/lib.c. A function in C takes its arguments from the frame of its context and
-- returns a value or NULL.
pub mod Args
pub mod Numbers
pub mod Predicates
pub mod Sequences
pub mod Apply
pub mod Fits
pub mod Fold
pub mod Logic
pub mod Order
pub mod Made
pub mod Applied
pub mod Table
pub mod Composed
pub mod Indexed
mod Tests
use ak_lisp.Base.{ℕ, Bool, true, false, Option, List}
use ak_lisp.Values.{Value, new_nil_value, new_true_value}
use ak_lisp.Machine.{Machine}

-- What the processor does with doubles and integers. A double is its bits; an `int` or a `long` is the
-- number above the least one, so that the order is that of the numbers.
pub record Arith : Type 0 where
  pub zero_double : ℕ
  pub one_double : ℕ
  pub add : ℕ → ℕ → ℕ
  pub sub : ℕ → ℕ → ℕ
  pub mul : ℕ → ℕ → ℕ
  pub div : ℕ → ℕ → ℕ
  pub is_zero : ℕ → Bool
  pub to_int : ℕ → ℕ
  pub of_int : ℕ → ℕ
  pub to_long : ℕ → ℕ
  pub of_long : ℕ → ℕ
  -- the quotient of a `long` by an `int`, the remainder of two `int`s
  pub div_long : ℕ → ℕ → ℕ
  pub rem_int : ℕ → ℕ → ℕ
  -- `strlen` and `li_count` as a double, `atoi`
  pub of_count : ℕ → ℕ
  pub atoi : List ℕ → ℕ

-- 0 as an `int` and as a `long`.
abbrev pub int_zero : ℕ
int_zero = 2_147_483_648

abbrev pub long_zero : ℕ
long_zero = 9_223_372_036_854_775_808

-- What a function returns, `none` for NULL, and the machine behind it.
abbrev pub Returned : Type 0 → Type 0
Returned G = Option Value × Machine G

abbrev pub truth : Bool → Value
truth true = new_true_value
truth false = new_nil_value
