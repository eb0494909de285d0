-- ===== src/Builtins/Predicates.antt =====
-- The tests, the logic and the comparisons of src/lib.c.
use mathlib.Core.Option
use ak_lisp.Base.{
  ℕ, zero, suc, Bool, true, false, not, ◌||◌, Option, none, some, [], ◌∷◌, if◌then◌else◌,
}
use ak_lisp.Values.{
  Value, ValueType, va_type, t_nil, t_symbol, t_list, is_nil, is_nil_or_null, Order, below, same,
  above, Library, new_nil_value, new_true_value,
}
use ak_lisp.Values.Compare.{compare_values}
use ak_lisp.Machine.{Machine, frame_pop}
use ak_lisp.Builtins.{Returned, truth}
use ak_lisp.Builtins.Args.{Args, same_type, pop_number, pop_string, get_args}

-- `AKL_CHECK_TYPE`
abbrev pub has_type : ValueType → Option Value → Bool
has_type t none = false
has_type t (some v) = same_type t (va_type v)

module _ {G : Type 0} where
  abbrev answer : (Option Value → Bool) → Option Value × Machine G → Returned G
  answer test (v, m) = (some (truth (test v)), m)

  abbrev is_some : {A : Type 0} → Option A × Machine G → Returned G
  is_some (none, m) = (some new_nil_value, m)
  is_some (some x, m) = (some new_true_value, m)

  pub isnil : Machine G → Returned G
  isnil m = answer is_nil_or_null (frame_pop m)

  pub isstring : Machine G → Returned G
  isstring m = is_some (pop_string m)

  pub islist : Machine G → Returned G
  islist m = answer (λ v. has_type t_list v || has_type t_nil v) (frame_pop m)

  pub isnumber : Machine G → Returned G
  isnumber m = is_some (pop_number m)

  pub issymbol : Machine G → Returned G
  issymbol m = answer (has_type t_symbol) (frame_pop m)

  unfoldable pub not_fun : Machine G → Returned G
  not_fun m = answer is_nil_or_null (frame_pop m)

  abbrev pub until_value :
      (stops : Value → Bool)
      → (found otherwise : Value) → Option Value × Machine G
      → (Machine G → Returned G)
      → Returned G
  until_value stops found otherwise (none, m) go = (some otherwise, m)
  until_value stops found otherwise (some v, m) go = if stops v then (some found, m) else go m

  -- The loops of `and` and `or`, `n` rounds at most.
  abbrev pub pop_until : (Value → Bool) → Value → Value → ℕ → Machine G → Returned G
  pop_until stops found otherwise zero m = (some otherwise, m)
  pop_until stops found otherwise (suc n) m =
      until_value stops found otherwise (frame_pop m) (λ r. pop_until stops found otherwise n r)

  -- Each round takes a value off the frame.
  unfoldable pub and_fun : Machine G → Returned G
  and_fun m = pop_until is_nil new_nil_value new_true_value (suc m.frame_count) m

  unfoldable pub or_fun : Machine G → Returned G
  or_fun m = pop_until (λ v. not (is_nil v)) new_true_value new_nil_value (suc m.frame_count) m

-- The result of `get_and_compare_values`: -2, or the sign of a comparison.
pub data Compared : Type 0 where
  bad_args : Compared
  sign : Order → Compared

abbrev pub is_gt : Compared → Bool
is_gt (sign above) = true
is_gt (sign below) = false
is_gt (sign same) = false
is_gt bad_args = false

abbrev pub is_eq : Compared → Bool
is_eq (sign same) = true
is_eq (sign below) = false
is_eq (sign above) = false
is_eq bad_args = false

abbrev pub is_lt : Compared → Bool
is_lt (sign below) = true
is_lt bad_args = true
is_lt (sign same) = false
is_lt (sign above) = false

module _ (c : Library) (n : ℕ) {G : Type 0} where
  abbrev pub compared : Args G → Option (Compared × Machine G)
  compared (some (v ∷ w ∷ vs), m) =
      Option.map (λ o. (sign o, m)) (compare_values c n (some v) (some w))
  compared (some (v ∷ []), m) = some (bad_args, m)
  compared (some [], m) = some (bad_args, m)
  compared (none, m) = some (bad_args, m)

  -- The outer `none` is a fault, or the want of the fuel `n` for the comparison.
  unfoldable pub get_and_compare_values : Machine G → Option (Compared × Machine G)
  get_and_compare_values m = compared (get_args 2 m)

  abbrev pub by_sign : (Compared → Bool) → Machine G → Option (Returned G)
  by_sign test m = Option.map (λ r. (some (truth (test r.0)), r.1)) (get_and_compare_values m)

  unfoldable pub gt : Machine G → Option (Returned G)
  gt m = by_sign is_gt m

  unfoldable pub gteq : Machine G → Option (Returned G)
  gteq m = by_sign (λ r. is_gt r || is_eq r) m

  unfoldable pub lt : Machine G → Option (Returned G)
  lt m = by_sign is_lt m

  unfoldable pub lteq : Machine G → Option (Returned G)
  lteq m = by_sign (λ r. is_lt r || is_eq r) m

  unfoldable pub neq : Machine G → Option (Returned G)
  neq m = by_sign (λ r. not (is_eq r)) m

  unfoldable pub eq : Machine G → Option (Returned G)
  eq m = by_sign is_eq m
