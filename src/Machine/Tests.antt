-- ===== src/Machine/Tests.antt =====
-- A call of a function that takes its first argument off the frame and gives it back.
use ak_lisp.Base.{ℕ, false, none, some, List, [], ◌∷◌, ◌++◌, ◌≡◌, refl, arith}
use ak_lisp.Values.{Value, new_number_value, new_nil_value}
use ak_lisp.Machine.{Machine, frame_shift}
use ak_lisp.Machine.Exec.{Env, Globals, cfun, call_function_bound}
use ak_lisp.Machine.Frame.{call_function_bound-cfun}

abbrev no_variables : Globals ℕ
no_variables = record { get_global_var = λ g s. none; set_global_var = λ g s v. g }

abbrev test_env : Env ℕ
test_env = record {
  vars = no_variables;
  function = λ f. cfun f;
  call_c = λ run f argc m. some (frame_shift m);
}

abbrev machine : List Value → ℕ → ℕ → ℕ → Machine ℕ
machine stack first behind count = record {
  stack = stack;
  frame_head = some first;
  frame_end = behind;
  frame_count = count;
  globals = 0;
  errors = [];
  ai_interrupted = false;
}

abbrev below : List Value
below = new_nil_value ∷ []

abbrev caller : Machine ℕ
caller = machine (below ++ (new_number_value 5 ∷ new_number_value 6 ∷ [])) 0 1 1

call_function_bound-cfun_example :
    (c : Machine ℕ) × (call_function_bound test_env (λ t m. none) (some 3) 2 2 caller ≡ some c)
    × (c.stack ≡ below ++ (new_number_value 5 ∷ []))
    × (c.frame_head ≡ some 0)
    × (c.frame_end ≡ 1)
    × (c.frame_count ≡ 1)
unfolding frame_shift
call_function_bound-cfun_example =
    call_function_bound-cfun test_env (λ t m. none) (some 3) 2 2 2 caller
      (machine (below ++ (new_number_value 6 ∷ [])) 1 2 1) (new_number_value 5) refl refl
      (omega arith) refl
