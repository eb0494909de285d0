-- ===== src/Compile/Expr/Tests.antt =====
-- The loop `(while x (set! x nil))` where `x`, the one variable, is true.
use ak_lisp.Base.{ℕ, ◌+◌, false, Option, none, some, List, [], ◌∷◌, ◌≡◌, refl, ◌==◌, if◌then◌else◌}
use ak_lisp.Compile.Parse.{Lexeme, atom, number, nil, lbrace, rbrace}
use ak_lisp.Compile.Forms.{Compiler, prefetch_function, ◌>>=◌}
use ak_lisp.Compile.Lists.{compile}
use ak_lisp.Compile.Expr.Reads.{
  plain_nil, plain_number, next_plain, next_call, call_if, call_set, Program, program_end,
  program_more,
}
use ak_lisp.Compile.Expr.Program.{execute-compile}
use ak_lisp.Values.{Value, new_number_value, new_function_value, new_true_value, new_nil_value}
use ak_lisp.Machine.{Machine}
use ak_lisp.Machine.Code.{empty, build_nop}
use ak_lisp.Machine.Code.Blocks.{Keeps}
use ak_lisp.Compile.Expr.Effect.{code_of-Keeps}
use ak_lisp.Machine.Exec.{Env, Globals, user, special, sif, set_form, execute}
use ak_lisp.Compile.Expr.{
  if_of, runs_if_nil, const, name, while_of, set_of, Exprs, no_exprs, then_expr, code_of,
  runs_const, runs_name, runs_while, runs_set, runs_done, runs_again, RunsAll, runs_none, runs_then,
}

abbrev one_variable : Globals (Option Value)
one_variable = record { get_global_var = λ g s. g; set_global_var = λ g s v. some v }

abbrev test_env : Env (Option Value)
test_env = record {
  vars = one_variable;
  function = λ f. user empty;
  call_c = λ run f argc m. some (none, m);
}

abbrev machine : List Value → Value → Machine (Option Value)
machine stack x = record {
  stack = stack;
  frame_head = none;
  frame_end = 0;
  frame_count = 0;
  globals = some x;
  errors = [];
  ai_interrupted = false;
}

abbrev loop : Exprs
loop = then_expr (while_of (name none 7) (set_of 7 (const new_nil_value))) no_exprs

abbrev end : Machine (Option Value)
end = machine (new_nil_value ∷ []) new_nil_value

loop_runs : RunsAll test_env loop (machine [] new_true_value) end
loop_runs =
    runs_then end
      (runs_while (
        runs_again (machine (new_true_value ∷ []) new_true_value) (machine [] new_true_value) end
          (runs_name refl) refl (refl, refl, refl)
          (runs_set (machine (new_nil_value ∷ []) new_true_value) (runs_const refl) refl) refl
          (runs_done (machine (new_nil_value ∷ new_nil_value ∷ []) new_nil_value) (runs_name refl)
            refl (refl, refl, refl))))
      runs_none

-- Behind code of one instruction.
code_of-Keeps_example :
    Keeps
      (build_nop empty)
      (code_of (while_of (name none 7) (const new_nil_value)) (build_nop empty))
code_of-Keeps_example =
    code_of-Keeps (while_of (name none 7) (const new_nil_value)) (build_nop empty)

-- The program `(if nil 1 (set! x 2))`, where `if` is 0, `set!` is 1 and `x` is 7.
abbrev with_forms : Globals (Option Value)
with_forms = record {
  get_global_var = λ g s.
      if s == 0
      then some (new_function_value 0)
      else (if s == 1 then some (new_function_value 1) else g);
  set_global_var = λ g s v. some v;
}

abbrev forms_env : Env (Option Value)
forms_env = record {
  vars = with_forms;
  function = λ f. user empty;
  call_c = λ run f argc m. some (none, m);
}

abbrev program : List Lexeme
program =
    lbrace ∷ atom 0 ∷ nil ∷ number 1 ∷ lbrace ∷ atom 1 ∷ atom 7 ∷ number 2 ∷ rbrace ∷ rbrace ∷ []

abbrev compiler : Compiler (Option Value)
compiler = record {
  rest = [];
  code = empty;
  args = [];
  functions = special sif ∷ special set_form ∷ [];
  globals = none;
  errors = [];
  ai_interrupted = false;
}

abbrev expressions : Exprs
expressions =
    then_expr
      (if_of (const new_nil_value) (const (new_number_value 1))
        (set_of 7 (const (new_number_value 2))))
      no_exprs

program_reads : Program with_forms compiler program expressions
unfolding prefetch_function
program_reads =
    program_more []
      (next_call (
        call_if (number 1 ∷ lbrace ∷ atom 1 ∷ atom 7 ∷ number 2 ∷ rbrace ∷ rbrace ∷ [])
          (lbrace ∷ atom 1 ∷ atom 7 ∷ number 2 ∷ rbrace ∷ rbrace ∷ []) (0, refl, refl)
          (next_plain plain_nil) (next_plain (plain_number 1))
          (next_call (call_set (1, refl, refl) (next_plain (plain_number 2))))))
      program_end

program_runs :
    RunsAll forms_env expressions
      (machine [] new_true_value)
      (machine (new_number_value 2 ∷ []) (new_number_value 2))
program_runs =
    runs_then (machine (new_number_value 2 ∷ []) (new_number_value 2))
      (runs_if_nil (machine (new_nil_value ∷ []) new_true_value) (machine [] new_true_value)
        (runs_const refl) refl (refl, refl, refl)
        (runs_set (machine (new_number_value 2 ∷ []) new_true_value) (runs_const refl) refl))
      runs_none

execute-compile_example :
    (k : ℕ) × ((n : ℕ)
      → (compile with_forms (k + n) (record compiler { rest = program }) >>= λ d.
          execute forms_env (k + n) d.code (machine [] new_true_value))
        ≡ some (machine (new_number_value 2 ∷ []) (new_number_value 2)))
execute-compile_example =
    execute-compile forms_env compiler program expressions (machine [] new_true_value)
      (machine (new_number_value 2 ∷ []) (new_number_value 2)) refl refl program_reads program_runs
