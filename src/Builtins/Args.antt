-- ===== src/Builtins/Args.antt =====
-- The functions of src/aklisp.c that take arguments off a frame.
use ak_lisp.Base.{
  ℕ, zero, suc, Bool, true, false, not, Option, none, some, List, [], ◌∷◌, length, ◌==◌,
  if◌then◌else◌,
}
use ak_lisp.Values.{
  Value, ValueType, va_type, t_nil, t_true, t_symbol, t_variable, t_number, t_string, t_list,
  t_function, t_userdata, get_number, get_string_value, new_nil_value,
}
use ak_lisp.Machine.{
  Machine, raise, frame_pop, frame_shift, null_in_stack, expected_type, expected_arguments,
}

abbrev pub same_type : ValueType → ValueType → Bool
same_type t_nil t_nil = true
same_type t_true t_true = true
same_type t_symbol t_symbol = true
same_type t_variable t_variable = true
same_type t_number t_number = true
same_type t_string t_string = true
same_type t_list t_list = true
same_type t_function t_function = true
same_type t_userdata t_userdata = true
same_type s t = false

-- `AKL_GET_NUMBER_VALUE`, which is 0.0 for other values.
abbrev pub number_value : Value → ℕ
number_value v = elim (get_number v) [ none ↦ 0 | some n ↦ n ]

abbrev pub number_of : Option Value → Option ℕ
number_of none = none
number_of (some v) = get_number v

abbrev pub string_of : Option Value → Option (List ℕ)
string_of none = none
string_of (some v) = get_string_value v

-- A type that `akl_get_args_strict` expects; `none` is AKL_VT_ANY.
abbrev pub mismatch : Option ValueType → Value → Bool
mismatch none v = false
mismatch (some t_nil) v = false
mismatch (some t_true) v = false
mismatch (some t) v = not (same_type t (va_type v))

-- The values, or -1 with the error that was raised.
abbrev pub Args : Type 0 → Type 0
Args G = Option (List Value) × Machine G

module _ {G : Type 0} where
  unfoldable pub pop_number : Machine G → Option ℕ × Machine G
  pop_number m = let (v, r) = frame_pop m in (number_of v, r)

  unfoldable pub shift_number : Machine G → Option ℕ × Machine G
  shift_number m = let (v, r) = frame_shift m in (number_of v, r)

  unfoldable pub pop_string : Machine G → Option (List ℕ) × Machine G
  pop_string m = let (v, r) = frame_pop m in (string_of v, r)

  abbrev pub with_first : Value → Args G → Args G
  with_first v (none, m) = (none, m)
  with_first v (some vs, m) = (some (v ∷ vs), m)

  abbrev pub taken : Option Value × Machine G → Args G → Args G
  taken (none, m) rest = (none, raise null_in_stack m)
  taken (some v, m) rest = with_first v rest

  -- The loop of `akl_get_args`.
  abbrev pub shift_args : ℕ → Machine G → Args G
  shift_args zero m = (some [], m)
  shift_args (suc n) m = let (v, r) = frame_shift m in taken (v, r) (shift_args n r)

  unfoldable pub get_args : ℕ → Machine G → Args G
  get_args n m = if n == m.frame_count then shift_args n m else (none, raise expected_arguments m)

  abbrev pub taken_strict : Option ValueType → Option Value × Machine G → Args G → Args G
  taken_strict t (none, m) rest = (none, raise null_in_stack m)
  taken_strict t (some v, m) rest =
      if mismatch t v then (none, raise expected_type m) else with_first v rest

  -- The loop of `akl_get_args_strict`, without AKL_VT_OPT and AKL_VT_REST.
  abbrev pub shift_strict : List (Option ValueType) → Machine G → Args G
  shift_strict [] m = (some [], m)
  shift_strict (t ∷ ts) m = let (v, r) = frame_shift m in taken_strict t (v, r) (shift_strict ts r)

  -- The number of arguments is compared after they are taken.
  abbrev pub counted : Bool → Args G → Args G
  counted b (none, m) = (none, m)
  counted true (some vs, m) = (some vs, m)
  counted false (some vs, m) = (none, raise expected_arguments m)

  -- `akl_get_args_strict`: asked for no type it returns -1 at once, and raises no error.
  unfoldable pub get_args_strict : List (Option ValueType) → Machine G → Args G
  get_args_strict [] m = (none, m)
  get_args_strict (t ∷ ts) m = counted (m.frame_count == length (t ∷ ts)) (shift_strict (t ∷ ts) m)

  -- The rest of a function that returns nil without its arguments.
  abbrev pub with_one : (Value → Option Value) → Args G → Option Value × Machine G
  with_one f (some (v ∷ vs), m) = (f v, m)
  with_one f (some [], m) = (some new_nil_value, m)
  with_one f (none, m) = (some new_nil_value, m)

  abbrev pub with_two : (Value → Value → Option Value) → Args G → Option Value × Machine G
  with_two f (some (v ∷ w ∷ vs), m) = (f v w, m)
  with_two f (some (v ∷ []), m) = (some new_nil_value, m)
  with_two f (some [], m) = (some new_nil_value, m)
  with_two f (none, m) = (some new_nil_value, m)
