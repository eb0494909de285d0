-- ===== src/Builtins/Tests.antt =====
-- The theorems on the functions of src/lib.c at concrete values. The doubles are natural numbers here.
use ak_lisp.Base.{
  ℕ, ◌+◌, ◌-◌, ◌*◌, ◌/◌, ◌%◌, true, false, none, some, List, [], ◌∷◌, ◌++◌, ◌≡◌, refl, arith,
  length, get_elem?, ◌==◌,
}
use ak_lisp.Values.{
  Value, t_number, t_string, Library, same, above, new_nil_value, new_true_value,
  new_function_value, new_number_value,
}
use ak_lisp.Values.Compare.{compare_values, compare_numbers}
use ak_lisp.Machine.{Machine, raise, expected_arguments, expected_type}
use ak_lisp.Machine.Exec.{Globals, cfun, Env, run, call_function_bound}
use ak_lisp.Machine.OnFrame.{on_frame}
use ak_lisp.Builtins.{Arith, int_zero}
use ak_lisp.Builtins.Args.{get_args_strict}
use ak_lisp.Builtins.Numbers.{plus, mul}
use ak_lisp.Builtins.Predicates.{and_fun, or_fun, lt, gteq, gt, lteq, eq, neq}
use ak_lisp.Builtins.Sequences.{quoted_list, numbers_from, range}
use ak_lisp.Builtins.Indexed.{map_index-indices}
use ak_lisp.Builtins.Apply.{map_index, map_fun, foldl_fun}
use ak_lisp.Builtins.Fits.{fits_nil, fits_cons, get_args_strict-Fits, get_args_strict-error}
use ak_lisp.Builtins.Fold.{plus-mul, plus-mul_stop}
use ak_lisp.Builtins.Logic.{and_fun-or_fun}
use ak_lisp.Builtins.Order.{answers, comparisons-two, comparisons-count}
use ak_lisp.Builtins.Made.{range-elements}
use ak_lisp.Builtins.Applied.{map_fun-values, call_function_bound-values}
use ak_lisp.Builtins.Table.{Linked, with_basic_funs}
use ak_lisp.Builtins.Composed.{call_cfun-inc, foldl_fun-plus}

abbrev counting : Arith
counting = record {
  zero_double = 0;
  one_double = 1;
  add = λ x y. x + y;
  sub = λ x y. x - y;
  mul = λ x y. x * y;
  div = λ x y. x / y;
  is_zero = λ x. x == 0;
  to_int = λ x. int_zero + x;
  of_int = λ x. x - int_zero;
  to_long = λ x. x;
  of_long = λ x. x;
  div_long = λ x y. x / y;
  rem_int = λ x y. x % y;
  of_count = λ x. x;
  atoi = λ s. 0;
}

abbrev plain : Library
plain = record {
  atof = λ s. 0;
  format_g = λ n. [];
  sym_name = λ s. none;
  intern = λ s. 0;
  strcmp = λ s t. same;
  to_long = λ n. n;
}

abbrev no_variables : Globals ℕ
no_variables = record { get_global_var = λ g s. none; set_global_var = λ g s v. g }

abbrev linked : Linked ℕ
linked = record {
  arith = counting;
  library = plain;
  fuel = 5;
  strtok = λ s d. [];
  ls_append = λ k m. none;
  ls_insert = λ k m. none;
  akl_cfg = λ k m. none;
  describe = λ k m. none;
  exit = λ k m. none;
}

abbrev basic_env : Env ℕ
basic_env = with_basic_funs linked no_variables (λ f. cfun f)

abbrev start : Machine ℕ
start = record {
  stack = [];
  frame_head = none;
  frame_end = 0;
  frame_count = 0;
  globals = 0;
  errors = [];
  ai_interrupted = false;
}

abbrev under : List Value
under = new_nil_value ∷ []

abbrev num : ℕ → Value
num = new_number_value

get_args_strict-Fits_example :
    (get_args_strict (some t_number ∷ none ∷ []) (on_frame under (num 3 ∷ new_nil_value ∷ []) start)
      ≡ (some (num 3 ∷ new_nil_value ∷ []), on_frame under [] start))
    × (get_args_strict [] (on_frame under (num 3 ∷ new_nil_value ∷ []) start)
        ≡ (none, on_frame under (num 3 ∷ new_nil_value ∷ []) start))
get_args_strict-Fits_example =
    get_args_strict-Fits under start (some t_number) (none ∷ []) (num 3 ∷ new_nil_value ∷ [])
      (fits_cons refl (fits_cons refl fits_nil))

get_args_strict-error_example :
    get_args_strict
      (some t_number ∷ some t_string ∷ none ∷ [])
      (on_frame under (num 3 ∷ num 4 ∷ new_nil_value ∷ []) start)
    ≡ (none, raise expected_type (on_frame under (new_nil_value ∷ []) start))
get_args_strict-error_example =
    get_args_strict-error under start (some t_number ∷ []) (none ∷ []) (num 3 ∷ [])
      (new_nil_value ∷ []) (some t_string) (num 4) (fits_cons refl fits_nil) refl

plus-mul_example :
    (plus counting (on_frame under (num 2 ∷ num 3 ∷ num 4 ∷ []) start)
      ≡ (some (num 9), on_frame under [] start))
    × (mul counting (on_frame under (num 2 ∷ num 3 ∷ num 4 ∷ []) start)
        ≡ (some (num 24), on_frame under [] start))
plus-mul_example = plus-mul counting start under (4 ∷ 3 ∷ 2 ∷ [])

plus-mul_stop_example :
    (plus counting (on_frame under (num 2 ∷ new_true_value ∷ num 4 ∷ []) start)
      ≡ (some (num 4), on_frame under (num 2 ∷ []) start))
    × (mul counting (on_frame under (num 2 ∷ new_true_value ∷ num 4 ∷ []) start)
        ≡ (some (num 4), on_frame under (num 2 ∷ []) start))
plus-mul_stop_example = plus-mul_stop counting start under (num 2 ∷ []) new_true_value (4 ∷ []) refl

and_fun-or_fun_example :
    (and_fun (on_frame under (num 1 ∷ new_nil_value ∷ num 2 ∷ []) start)
      ≡ (some new_nil_value, on_frame under (num 1 ∷ []) start))
    × (or_fun (on_frame under (num 1 ∷ new_nil_value ∷ num 2 ∷ []) start)
        ≡ (some new_true_value, on_frame under (num 1 ∷ new_nil_value ∷ []) start))
and_fun-or_fun_example = and_fun-or_fun under start (num 2 ∷ new_nil_value ∷ num 1 ∷ [])

three_above_two : compare_values plain 5 (some (num 3)) (some (num 2)) ≡ some above
unfolding compare_values compare_numbers
three_above_two = refl

comparisons-two_example :
    (lt plain 5 (on_frame under (num 3 ∷ num 2 ∷ []) start)
      ≡ answers false (on_frame under [] start))
    × (gteq plain 5 (on_frame under (num 3 ∷ num 2 ∷ []) start)
        ≡ answers true (on_frame under [] start))
    × (gt plain 5 (on_frame under (num 3 ∷ num 2 ∷ []) start)
        ≡ answers true (on_frame under [] start))
    × (lteq plain 5 (on_frame under (num 3 ∷ num 2 ∷ []) start)
        ≡ answers false (on_frame under [] start))
    × (eq plain 5 (on_frame under (num 3 ∷ num 2 ∷ []) start)
        ≡ answers false (on_frame under [] start))
    × (neq plain 5 (on_frame under (num 3 ∷ num 2 ∷ []) start)
        ≡ answers true (on_frame under [] start))
comparisons-two_example = comparisons-two plain 5 under (num 3) (num 2) above start three_above_two

comparisons-count_example :
    (lt plain 5 (on_frame under (num 3 ∷ []) start)
      ≡ answers true (raise expected_arguments (on_frame under (num 3 ∷ []) start)))
    × (lteq plain 5 (on_frame under (num 3 ∷ []) start)
        ≡ answers true (raise expected_arguments (on_frame under (num 3 ∷ []) start)))
    × (neq plain 5 (on_frame under (num 3 ∷ []) start)
        ≡ answers true (raise expected_arguments (on_frame under (num 3 ∷ []) start)))
    × (gt plain 5 (on_frame under (num 3 ∷ []) start)
        ≡ answers false (raise expected_arguments (on_frame under (num 3 ∷ []) start)))
    × (gteq plain 5 (on_frame under (num 3 ∷ []) start)
        ≡ answers false (raise expected_arguments (on_frame under (num 3 ∷ []) start)))
    × (eq plain 5 (on_frame under (num 3 ∷ []) start)
        ≡ answers false (raise expected_arguments (on_frame under (num 3 ∷ []) start)))
comparisons-count_example = comparisons-count plain 5 (on_frame under (num 3 ∷ []) start) refl

range-elements_example :
    (range counting (on_frame under (num 2 ∷ num 4 ∷ []) start)
      ≡ some (some (quoted_list (num 2 ∷ num 3 ∷ num 4 ∷ [])), on_frame under [] start))
    × (length (numbers_from counting 3 (int_zero + 2)) ≡ 3)
    × (get_elem? (numbers_from counting 3 (int_zero + 2)) 1 ≡ some (num 3))
range-elements_example = range-elements counting under start 2 4 1 (omega arith)

map_fun-values_example :
    map_fun
      (run basic_env 3)
      (on_frame under (quoted_list (num 5 ∷ num 7 ∷ []) ∷ new_function_value 0 ∷ []) start)
    ≡ some (some (quoted_list (num 6 ∷ num 8 ∷ [])), on_frame under [] start)
map_fun-values_example =
    map_fun-values basic_env 2 0 0 num under start (λ x. num (x + 1)) (5 ∷ 7 ∷ []) refl
      (λ s x. call_cfun-inc linked no_variables (λ f. cfun f) (run basic_env 2) s x start)

foldl_fun-plus_example :
    foldl_fun
      (run basic_env 3)
      (on_frame under (num 1 ∷ quoted_list (num 5 ∷ num 7 ∷ []) ∷ new_function_value 2 ∷ []) start)
    ≡ some (some (num 13), on_frame under [] start)
foldl_fun-plus_example =
    foldl_fun-plus linked no_variables (λ f. cfun f) 2 2 under start 1 (5 ∷ 7 ∷ []) refl

call_function_bound-values_example :
    call_function_bound basic_env
      (λ t m. none)
      none
      0
      1
      (record start { stack = under ++ (num 5 ∷ []) })
    ≡ some (record start { stack = under ++ (num 6 ∷ []) })
call_function_bound-values_example =
    call_function_bound-values basic_env (λ t m. none) none 0 0 under [] (num 5) (num 6) start refl
      (call_cfun-inc linked no_variables (λ f. cfun f) (λ t m. none) under 5 start)

map_index-indices_example :
    map_index counting
      (run basic_env 3)
      (on_frame under (quoted_list (num 5 ∷ num 7 ∷ []) ∷ new_function_value 0 ∷ []) start)
    ≡ some (
      some (quoted_list (num 6 ∷ num 8 ∷ [])),
      record (on_frame under [] start) { stack = under ++ (num 0 ∷ num 1 ∷ []) },
    )
map_index-indices_example =
    map_index-indices counting basic_env 2 0 0 num (λ x. num (x + 1)) under start (5 ∷ 7 ∷ []) refl
      (λ s x. call_cfun-inc linked no_variables (λ f. cfun f) (run basic_env 2) s x start)
