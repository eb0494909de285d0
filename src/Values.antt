-- ===== src/Values.antt =====
-- `struct akl_value` of src/aklisp.h, and the functions of src/types.c and src/list.c that make,
-- inspect, convert and copy values.
-- A value is a tree: what it points to is part of it. A string is its bytes without the NUL, a
-- symbol is an address, as is a function; a double is its bits.
pub mod Copy
pub mod Compare
mod Tests
use ak_lisp.Base.{ℕ, Bool, true, false, Option, none, some, List, [], ◌∷◌, ◌==◌, if◌then◌else◌}

-- `va_type` and `va_value`, then the bit `is_quoted`. `is_nil` is set for the type NIL alone.
mutual
  pub data Body : Type 0 where
    vt_nil : Body
    vt_true : Body
    vt_symbol : ℕ → Body
    vt_variable : ℕ → Body
    vt_number : ℕ → Body
    vt_string : List ℕ → Body
    vt_list : (is_quoted : Bool) → Values → Body
    vt_function : ℕ → Body
    vt_userdata : ℕ → ℕ → Body

  pub data Value : Type 0 where
    value : (is_quoted : Bool) → Body → Value

  pub data Values : Type 0 where
    no_values : Values
    more : Value → Values → Values

pub data ValueType : Type 0 where
  t_nil t_true t_symbol t_variable t_number t_string t_list t_function t_userdata : ValueType

abbrev pub va_value : Value → Body
va_value (value q b) = b

abbrev pub quoted : Value → Bool
quoted (value q b) = q

abbrev pub type_of_body : Body → ValueType
type_of_body vt_nil = t_nil
type_of_body vt_true = t_true
type_of_body (vt_symbol s) = t_symbol
type_of_body (vt_variable s) = t_variable
type_of_body (vt_number n) = t_number
type_of_body (vt_string s) = t_string
type_of_body (vt_list q vs) = t_list
type_of_body (vt_function f) = t_function
type_of_body (vt_userdata t p) = t_userdata

abbrev pub va_type : Value → ValueType
va_type v = type_of_body (va_value v)

-- `AKL_IS_NIL` of a value that is not NULL
abbrev pub is_nil : Value → Bool
is_nil (value q vt_nil) = true
is_nil (value q vt_true) = false
is_nil (value q (vt_symbol s)) = false
is_nil (value q (vt_variable s)) = false
is_nil (value q (vt_number n)) = false
is_nil (value q (vt_string s)) = false
is_nil (value q (vt_list p vs)) = false
is_nil (value q (vt_function f)) = false
is_nil (value q (vt_userdata t p)) = false

-- `AKL_IS_NIL` of a pointer, with `none` for NULL
abbrev pub is_nil_or_null : Option Value → Bool
is_nil_or_null none = true
is_nil_or_null (some v) = is_nil v

-- The constructors of src/types.c. `akl_new_nil_value` and `akl_new_true_value` copy the constants.
abbrev pub new_nil_value : Value
new_nil_value = value false vt_nil

abbrev pub new_true_value : Value
new_true_value = value false vt_true

abbrev pub new_number_value : ℕ → Value
new_number_value n = value false (vt_number n)

abbrev pub new_string_value : List ℕ → Value
new_string_value s = value false (vt_string s)

abbrev pub new_list_value : Bool → Values → Value
new_list_value q vs = value false (vt_list q vs)

abbrev pub new_sym_value : ℕ → Value
new_sym_value s = value false (vt_symbol s)

abbrev pub new_function_value : ℕ → Value
new_function_value f = value false (vt_function f)

-- A type that is not registered is an assertion that fails, `none`.
pub new_user_value : (is_registered : ℕ → Bool) → ℕ → ℕ → Option Value
new_user_value is_registered type private =
    if is_registered type then some (value false (vt_userdata type private)) else none

-- the getters of `AKL_GET_VALUE_MEMBER_PTR`, `none` for NULL
abbrev pub get_string_value : Value → Option (List ℕ)
get_string_value (value q (vt_string s)) = some s
get_string_value (value q vt_nil) = none
get_string_value (value q vt_true) = none
get_string_value (value q (vt_symbol s)) = none
get_string_value (value q (vt_variable s)) = none
get_string_value (value q (vt_number n)) = none
get_string_value (value q (vt_list p vs)) = none
get_string_value (value q (vt_function f)) = none
get_string_value (value q (vt_userdata t p)) = none

abbrev pub get_number : Value → Option ℕ
get_number (value q (vt_number n)) = some n
get_number (value q vt_nil) = none
get_number (value q vt_true) = none
get_number (value q (vt_symbol s)) = none
get_number (value q (vt_variable s)) = none
get_number (value q (vt_string s)) = none
get_number (value q (vt_list p vs)) = none
get_number (value q (vt_function f)) = none
get_number (value q (vt_userdata t p)) = none

abbrev pub get_userdata_value : Value → Option (ℕ × ℕ)
get_userdata_value (value q (vt_userdata t p)) = some (t, p)
get_userdata_value (value q vt_nil) = none
get_userdata_value (value q vt_true) = none
get_userdata_value (value q (vt_symbol s)) = none
get_userdata_value (value q (vt_variable s)) = none
get_userdata_value (value q (vt_number n)) = none
get_userdata_value (value q (vt_string s)) = none
get_userdata_value (value q (vt_list p vs)) = none
get_userdata_value (value q (vt_function f)) = none

pub get_udata_value : Value → Option ℕ
get_udata_value v = elim (get_userdata_value v) [ none ↦ none | some (t, p) ↦ some p ]

pub check_user_type : Value → ℕ → Bool
check_user_type v type = elim (get_userdata_value v) [ none ↦ false | some (t, p) ↦ t == type ]

-- -1 as an `unsigned int` for a value that is no userdata
abbrev pub get_utype_value : Value → ℕ
get_utype_value v = elim (get_userdata_value v) [ none ↦ 4_294_967_295 | some (t, p) ↦ t ]

-- `akl_var_to_function` on the value of a variable, and `akl_var_is_function`
abbrev pub var_to_function : Option Value → Option ℕ
var_to_function (some (value q (vt_function f))) = some f
var_to_function (some (value q vt_nil)) = none
var_to_function (some (value q vt_true)) = none
var_to_function (some (value q (vt_symbol s))) = none
var_to_function (some (value q (vt_variable s))) = none
var_to_function (some (value q (vt_number n))) = none
var_to_function (some (value q (vt_string s))) = none
var_to_function (some (value q (vt_list p vs))) = none
var_to_function (some (value q (vt_userdata t p))) = none
var_to_function none = none

pub var_is_function : Option Value → Bool
var_is_function v = elim (var_to_function v) [ none ↦ false | some f ↦ true ]

-- The sign of a comparison's result.
pub data Order : Type 0 where
  below same above : Order

-- What the C library and the processor do: `atof`, the "%g" of `snprintf`, `strcmp`, the cast of a
-- double to a `long`, as 64 bits. `sym_name` reads `sb_name`, and `intern` is `akl_new_symbol`.
pub record Library : Type 0 where
  pub atof : List ℕ → ℕ
  pub format_g : ℕ → List ℕ
  pub sym_name : ℕ → Option (List ℕ)
  pub intern : List ℕ → ℕ
  pub strcmp : List ℕ → List ℕ → Order
  pub to_long : ℕ → ℕ

module _ (c : Library) where
  to_number_of : Value → Option (List ℕ) → Option Value
  to_number_of v none = none
  to_number_of v (some str) = some (new_number_value (c.atof str))

  -- `akl_to_number`
  pub to_number : Value → Option Value
  unfolding to_number_of
  to_number v = elim (va_value v) [
    | vt_string s ↦ to_number_of v (some s)
    | vt_symbol s ↦ to_number_of v (c.sym_name s)
    | vt_nil ↦ to_number_of v (some (48 ∷ []))
    | vt_true ↦ to_number_of v (some (49 ∷ []))
    | vt_number n ↦ some v
    | vt_variable s ↦ none
    | vt_list p vs ↦ none
    | vt_function f ↦ none
    | vt_userdata t p ↦ none
  ]

  -- `akl_to_symbol`; the name goes to the symbol table
  pub to_symbol : Value → Option Value
  to_symbol v = elim (va_value v) [
    | vt_string s ↦ some (value true (vt_symbol (c.intern s)))
    | vt_symbol s ↦ some v
    | vt_nil ↦ some (value true (vt_symbol (c.intern (78 ∷ 73 ∷ 76 ∷ []))))
    | vt_true ↦ some (value true (vt_symbol (c.intern (84 ∷ []))))
    | vt_number n ↦ some (value true (vt_symbol (c.intern (c.format_g n))))
    | vt_variable s ↦ none
    | vt_list p vs ↦ none
    | vt_function f ↦ none
    | vt_userdata t p ↦ none
  ]

  -- `akl_to_string`. For the other types, and for a symbol without a name, the variable `str` is
  -- read although it was never set: a fault.
  pub to_string : Value → Option Value
  to_string v = elim (va_value v) [
    | vt_number n ↦ some (new_string_value (c.format_g n))
    | vt_symbol s ↦ elim (c.sym_name s) [ none ↦ none | some n ↦ some (new_string_value n) ]
    | vt_nil ↦ some (new_string_value (78 ∷ 73 ∷ 76 ∷ []))
    | vt_true ↦ some (new_string_value (84 ∷ []))
    | vt_string s ↦ some v
    | vt_variable s ↦ none
    | vt_list p vs ↦ none
    | vt_function f ↦ none
    | vt_userdata t p ↦ none
  ]
