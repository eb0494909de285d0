-- ===== src/Builtins/Sequences.antt =====
-- The functions on lists and strings of src/lib.c that do not change a list in place.
use mathlib.Core.Option
use ak_lisp.Base.{
  ℕ, zero, suc, ◌-◌, true, Option, none, some, List, [], ◌∷◌, length, get_elem?, ltb, ◌==◌,
  if◌then◌else◌,
}
use ak_lisp.Values.{
  Value, Values, value, no_values, more, vt_nil, vt_true, vt_symbol, vt_variable, vt_number,
  vt_string, vt_list, vt_function, vt_userdata, va_value, t_number, new_nil_value, new_number_value,
  new_string_value, new_list_value, get_string_value, Library, to_number, to_string,
}
use ak_lisp.Machine.{
  Machine, raise, frame_pop, frame_shift, no_list_or_string, no_parameter, no_index, no_indexable,
  no_string, bad_delimiter,
}
use ak_lisp.Builtins.{Arith, Returned, int_zero}
use ak_lisp.Builtins.Args.{
  Args, number_value, string_of, shift_number, get_args, get_args_strict, with_one,
}

unfoldable pub elements : Values → List Value
elements no_values = []
elements (more v vs) = v ∷ elements vs

unfoldable pub values_of : List Value → Values
values_of [] = no_values
values_of (v ∷ vs) = more v (values_of vs)

abbrev pub last_of : {A : Type 0} → List A → Option A
last_of xs = get_elem? xs (length xs - 1)

-- `akl_list_index_entry`: an index below 0 counts from the back.
unfoldable pub index_of : {A : Type 0} → List A → ℕ → Option A
index_of xs i =
    if ltb i int_zero
    then (if ltb (length xs) (int_zero - i)
        then none
        else get_elem? xs (length xs - (int_zero - i)))
    else get_elem? xs (i - int_zero)

-- `AKL_NULLER`
abbrev pub nil_or : Option Value → Value
nil_or none = new_nil_value
nil_or (some v) = v

abbrev pub one_char : Option ℕ → Option Value
one_char none = none
one_char (some ch) = some (new_string_value (ch ∷ []))

-- A list is marked as quoted by the functions that make one.
abbrev pub quoted_list : List Value → Value
quoted_list vs = new_list_value true (values_of vs)

abbrev pub rest_of_string : List ℕ → Option Value
rest_of_string [] = none
rest_of_string (ch ∷ s) = some (new_string_value s)

abbrev pub rest_of_list : List Value → Option Value
rest_of_list [] = none
rest_of_list (v ∷ vs) = some (quoted_list vs)

abbrev strings : List (List ℕ) → List Value
strings [] = []
strings (s ∷ ss) = new_string_value s ∷ strings ss

module _ {G : Type 0} where
  -- What a function does with a string and with a list. Another value is returned with an error.
  abbrev pub of_sequence :
      (List ℕ → Option Value) → (List Value → Option Value) → Value → Machine G → Returned G
  of_sequence string list v m = elim (va_value v) [
    | vt_string s ↦ (some (nil_or (string s)), m)
    | vt_list q vs ↦ (some (nil_or (list (elements vs))), m)
    | vt_nil ↦ (some v, raise no_list_or_string m)
    | vt_true ↦ (some v, raise no_list_or_string m)
    | vt_symbol s ↦ (some v, raise no_list_or_string m)
    | vt_variable s ↦ (some v, raise no_list_or_string m)
    | vt_number n ↦ (some v, raise no_list_or_string m)
    | vt_function f ↦ (some v, raise no_list_or_string m)
    | vt_userdata t p ↦ (some v, raise no_list_or_string m)
  ]

  abbrev pub of_popped :
      (List ℕ → Option Value) → (List Value → Option Value) → Option Value × Machine G → Returned G
  of_popped string list (none, m) = (some new_nil_value, raise no_parameter m)
  of_popped string list (some v, m) = of_sequence string list v m

  unfoldable pub ls_head : Machine G → Returned G
  ls_head m = of_popped (λ s. one_char (get_elem? s 0)) (λ vs. get_elem? vs 0) (frame_pop m)

  unfoldable pub ls_last : Machine G → Returned G
  ls_last m = of_popped (λ s. one_char (last_of s)) last_of (frame_pop m)

  unfoldable pub ls_tail : Machine G → Returned G
  ls_tail m = of_popped rest_of_string rest_of_list (frame_pop m)

  unfoldable pub progn : Machine G → Returned G
  progn m = frame_pop m

  abbrev pub collected : List Value × Machine G → Returned G
  collected (vs, m) = (some (quoted_list vs), m)

  abbrev pub gathered :
      Option Value × Machine G → (Machine G → List Value × Machine G) → List Value × Machine G
  gathered (none, m) go = ([], m)
  gathered (some v, m) go = let (vs, r) = go m in (v ∷ vs, r)

  -- The values that are shifted off the frame, `n` at most.
  abbrev pub shift_all : ℕ → Machine G → List Value × Machine G
  shift_all zero m = ([], m)
  shift_all (suc n) m = gathered (frame_shift m) (λ r. shift_all n r)

  unfoldable pub list_fun : Machine G → Returned G
  list_fun m = collected (shift_all (suc m.frame_count) m)

  abbrev delimiter : Option Value × Machine G → List ℕ × Machine G
  delimiter (none, m) = (32 ∷ [], m)
  delimiter (some v, m) = elim (get_string_value v) [
    | none ↦ (32 ∷ [], raise bad_delimiter m)
    | some d ↦ (d, m)
  ]

  -- `strtok` yields the parts of a text between the bytes of a delimiter.
  module _ (strtok : (text delimiter : List ℕ) → List (List ℕ)) where
    abbrev split_from : Option Value × Machine G → Returned G
    split_from (v, m) = elim (string_of v) [
      | none ↦ (some new_nil_value, raise no_string m)
      | some s ↦
          let (d, r) = delimiter (frame_shift m) in (some (quoted_list (strings (strtok s d))), r)
    ]

    pub split : Machine G → Returned G
    split m = split_from (frame_shift m)

module _ (a : Arith) where
  -- `n` numbers from `f` on
  abbrev pub numbers_from : ℕ → ℕ → List Value
  numbers_from zero f = []
  numbers_from (suc n) f = new_number_value (a.of_int f) ∷ numbers_from n (suc f)

  -- The loop of `range`. Past the greatest `int` the counter overflows, a fault.
  abbrev pub range_from : (f t : ℕ) → Option (List Value)
  range_from f t =
      if t == 4_294_967_295
      then (if ltb t f then some [] else none)
      else some (numbers_from (suc t - f) f)

module _ (a : Arith) {G : Type 0} where
  abbrev length_from : Args G → Returned G
  length_from (some (value q (vt_string s) ∷ vs), m) =
      (some (new_number_value (a.of_count (length s))), m)
  length_from (some (value q (vt_list p ws) ∷ vs), m) =
      (some (new_number_value (a.of_count (length (elements ws)))), m)
  length_from (some [], m) = (some new_nil_value, m)
  length_from (none, m) = (some new_nil_value, m)
  length_from (some (v ∷ vs), m) = (some new_nil_value, raise no_list_or_string m)

  unfoldable pub length_fun : Machine G → Returned G
  length_fun m = length_from (get_args 1 m)

  abbrev index_at : Option ℕ → Option Value × Machine G → Returned G
  index_at none (v, m) = (some new_nil_value, raise no_index m)
  index_at (some n) (none, m) = (some new_nil_value, raise no_indexable m)
  index_at (some n) (some v, m) =
      let i = a.to_int n in
      of_sequence (λ s. if ltb i int_zero then none else one_char (get_elem? s (i - int_zero)))
        (λ vs. index_of vs i) v m

  unfoldable pub ls_index : Machine G → Returned G
  ls_index m = let (n, r) = shift_number m in index_at n (frame_pop r)

  abbrev pub range_of : Args G → Option (Returned G)
  range_of (some (v ∷ w ∷ vs), m) =
      Option.map (λ xs. (some (quoted_list xs), m))
        (range_from a (a.to_int (number_value v)) (a.to_int (number_value w)))
  range_of (some (v ∷ []), m) = some (some new_nil_value, m)
  range_of (some [], m) = some (some new_nil_value, m)
  range_of (none, m) = some (some new_nil_value, m)

  unfoldable pub range : Machine G → Option (Returned G)
  range m = range_of (get_args_strict (some t_number ∷ some t_number ∷ []) m)

module _ (a : Arith) (c : Library) {G : Type 0} where
  abbrev int_result : ℕ → Machine G → Option (Returned G)
  int_result i m = some (some (new_number_value (a.of_int i)), m)

  -- For a type without a case the variable is returned that was never set: a fault.
  abbrev toint_of : Args G → Option (Returned G)
  toint_of (some (v ∷ vs), m) = elim (va_value v) [
    | vt_nil ↦ int_result int_zero m
    | vt_number n ↦ int_result (a.to_int n) m
    | vt_string s ↦ int_result (a.atoi s) m
    | vt_symbol s ↦ elim (c.sym_name s) [
      | none ↦ some (some new_nil_value, m)
      | some n ↦ int_result (a.atoi n) m
    ]
    | vt_true ↦ none
    | vt_variable s ↦ none
    | vt_list q vs ↦ none
    | vt_function f ↦ none
    | vt_userdata t p ↦ none
  ]
  toint_of (some [], m) = some (some new_nil_value, m)
  toint_of (none, m) = some (some new_nil_value, m)

  pub toint : Machine G → Option (Returned G)
  toint m = toint_of (get_args 1 m)

  pub tonumber : Machine G → Returned G
  tonumber m = with_one (λ v. to_number c v) (get_args 1 m)

  abbrev tostr_of : Args G → Option (Returned G)
  tostr_of (some (v ∷ vs), m) = Option.map (λ w. (some w, m)) (to_string c v)
  tostr_of (some [], m) = some (some new_nil_value, m)
  tostr_of (none, m) = some (some new_nil_value, m)

  pub tostr : Machine G → Option (Returned G)
  tostr m = tostr_of (get_args 1 m)
