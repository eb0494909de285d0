-- ===== src/Machine/Exec.antt =====
-- `akl_ir_exec_branch` and the calls of functions of src/aklisp.c.
pub mod Reaches
pub mod Jumps
pub mod Blocks
pub mod Loop
use mathlib.Core.Option
use ak_lisp.Base.{
  ℕ, zero, suc, ◌+◌, ◌-◌, Bool, true, false, Option, none, some, List, [], ◌∷◌, ◌++◌, get_elem?,
  length, ◌==◌, if◌then◌else◌,
}
use ak_lisp.Values.{
  Value, Values, value, vt_nil, vt_list, vt_function, no_values, more, va_value, is_nil_or_null,
  var_to_function, new_nil_value, new_list_value,
}
use ak_lisp.Machine.{
  Machine, Message, undefined_variable, not_found, not_a_function, gave_null, interrupted_warning,
  null_pushed, raise, stack_push, stack_top, stack_pop, pops_frame, takes_frame, frame_at,
  init_frame, frame_destroy,
}
use ak_lisp.Machine.Code.{
  Instr, Code, nop, push, load, call, get, set_var, branch, jmp, jt, jn, head, tail, ret,
}

-- The special forms of src/lib_spec.c.
pub data Form : Type 0 where
  sif lambda when swhile defun set_form : Form

-- `fn_type` with what `fn_body` holds for it.
pub data Function : Type 0 where
  cfun : ℕ → Function
  user : Code → Function
  special : Form → Function

-- The global variables, by `akl_get_global_var` and `akl_set_global_var`.
pub record Globals (G : Type 0) : Type 0 where
  pub get_global_var : G → ℕ → Option Value
  pub set_global_var : G → ℕ → Value → G

-- What a function may run: the body of a user function, or a call of the function object `fn` under
-- a name, or under none, with `argc` arguments.
pub data Target : Type 0 where
  body : Code → Target
  bound : (name : Option ℕ) (fn argc : ℕ) → Target

abbrev pub Runner : Type 0 → Type 0
Runner G = Target → Machine G → Option (Machine G)

-- With the variables the function objects, and the functions in C, which are called with a context
-- and the number of arguments, may call back, and may give NULL. The outer `none` is a fault.
pub record Env (G : Type 0) : Type 0 where
  pub vars : Globals G
  pub function : ℕ → Function
  pub call_c : Runner G → ℕ → ℕ → Machine G → Option (Option Value × Machine G)

-- Where the loop goes on, or that it is left.
pub data Next (G : Type 0) : Type 0 where
  goto : Machine G → ℕ → Next G
  stop : Machine G → Next G

module _ {G : Type 0} (env : Env G) where
  -- `akl_bound_function`: the function that the call uses. A context is copied; what changes in the
  -- copy are the function and later the frame.
  unfoldable pub bound_function : ℕ → Option ℕ → Machine G → Option ℕ × Machine G
  bound_function s (some fn) m = (some fn, m)
  bound_function s none m = elim (env.vars.get_global_var m.globals s) [
    | none ↦ (none, raise (not_found s) m)
    | some v ↦ elim (var_to_function (some v)) [
      | none ↦ (none, raise (not_a_function s) m)
      | some fn ↦ (some fn, m)
    ]
  ]

  -- The caller's frame stays as it was; the removal of entries above it does not move it.
  abbrev pub with_frame : Machine G → Machine G → Machine G
  with_frame caller m = record m {
    frame_head = caller.frame_head;
    frame_end = caller.frame_end;
    frame_count = caller.frame_count;
  }

  abbrev pub after_cfun : Option ℕ → Option Value × Machine G → Machine G
  after_cfun s (none, m) = raise (gave_null s) m
  after_cfun s (some v, m) = stack_push v m

  -- `akl_call_function_bound`; `run` executes a body or calls back. The value that it returns is not used by the
  -- executor.
  unfoldable pub call_function_bound : Runner G → Option ℕ → ℕ → ℕ → Machine G → Option (Machine G)
  call_function_bound run s fn argc m =
      let cx = init_frame argc m in
      Option.map (λ r. with_frame m (frame_destroy r))
        (elim (env.function fn) [
          | cfun f ↦ Option.map (after_cfun s) (env.call_c run f argc cx)
          | user code ↦ run (body code) cx
          | special k ↦ some cx
        ])

  abbrev list_values : Value → Option Values
  list_values (value q (vt_list p vs)) = some vs
  list_values v = none

  abbrev pushed_first : Option Values → Machine G → ℕ → Option (Next G)
  pushed_first none m ip = none
  pushed_first (some no_values) m ip = none
  pushed_first (some (more v vs)) m ip = some (goto (stack_push v m) (ip + 1))

  abbrev pushed_rest : Option Values → Machine G → ℕ → Option (Next G)
  pushed_rest none m ip = none
  pushed_rest (some no_values) m ip = none
  pushed_rest (some (more v vs)) m ip =
      some (goto (stack_push (new_list_value false vs) m) (ip + 1))

  -- A jump to a label; a branch that was never built is NULL, which ends the loop.
  abbrev pub jump_at : Option (Option ℕ) → Machine G → Option (Next G)
  jump_at none m = none
  jump_at (some none) m = some (stop m)
  jump_at (some (some p)) m = some (goto m p)

  abbrev pub jump_to : Code → ℕ → Machine G → Option (Next G)
  jump_to code l m = jump_at (get_elem? code.labels l) m

  abbrev pub push_or : Option Value → Machine G → Machine G → Machine G
  push_or none m other = other
  push_or (some v) m other = stack_push v m

  -- A global variable is pushed.
  abbrev pub looked_up : ℕ → Machine G → Machine G
  looked_up s m =
      push_or (env.vars.get_global_var m.globals s) m
        (stack_push new_nil_value (raise (undefined_variable s) m))

  -- The variable takes the value on top, which stays.
  abbrev pub assigned : ℕ → Option Value → Machine G → Machine G
  assigned s none m = m
  assigned s (some v) m = record m { globals = env.vars.set_global_var m.globals s v }

  -- The call of the function that was found, if one was.
  abbrev pub called : Runner G → ℕ → ℕ → ℕ → Option ℕ × Machine G → Option (Next G)
  called run s argc ip (none, m) = some (goto m (ip + 1))
  called run s argc ip (some f, m) =
      if takes_frame argc m
      then none
      else Option.map (λ r. goto r (ip + 1)) (call_function_bound run (some s) f argc m)

  -- What follows a pop of the stack.
  abbrev pub on_pop : Machine G → (Option Value → Machine G → Option (Next G)) → Option (Next G)
  on_pop m go = if pops_frame m then none else (let (v, r) = stack_pop m in go v r)

  -- One instruction. `none` is a fault, the want of fuel in a call, or a pop or a call that takes an entry
  -- of a frame away.
  unfoldable pub step : Runner G → Code → Instr → ℕ → Machine G → Option (Next G)
  unfolding bound_function call_function_bound
  step run code nop ip m = some (goto m (ip + 1))
  step run code (set_var s) ip m = some (goto (assigned s (stack_top m) m) (ip + 1))
  step run code (get s) ip m = some (goto (looked_up s m) (ip + 1))
  step run code (push none) ip m = some (stop (raise null_pushed m))
  step run code (push (some v)) ip m = some (goto (stack_push v m) (ip + 1))
  step run code (load i) ip m = some (goto (push_or (frame_at m i) m m) (ip + 1))
  step run code (call s fn argc) ip m = called run s argc ip (bound_function s fn m)
  step run code (head i) ip m = elim (frame_at m i) [
    | none ↦ some (goto m (ip + 1))
    | some v ↦ pushed_first (list_values v) m ip
  ]
  step run code (tail i) ip m = elim (frame_at m i) [
    | none ↦ some (goto m (ip + 1))
    | some v ↦ pushed_rest (list_values v) m ip
  ]
  step run code (jmp l) ip m = jump_to code l m
  step run code (jt l) ip m =
      on_pop m (λ v r. if is_nil_or_null v then some (goto r (ip + 1)) else jump_to code l r)
  step run code (jn l) ip m =
      on_pop m (λ v r. if is_nil_or_null v then jump_to code l r else some (goto r (ip + 1)))
  step run code (branch lt lf) ip m =
      on_pop m (λ v r. if is_nil_or_null v then jump_to code lt r else jump_to code lt r)
  step run code ret ip m = some (goto m (ip + 1))

  abbrev pub continue_with :
      (ℕ → Machine G → Option (Machine G)) → Option (Next G) → Option (Machine G)
  continue_with go none = none
  continue_with go (some (goto m ip)) = go ip m
  continue_with go (some (stop m)) = some m

  abbrev pub fetched :
      (ℕ → Machine G → Option (Machine G))
      → (Instr → Option (Next G))
      → Machine G
      → Option Instr
      → Option (Machine G)
  fetched go exec m none = some m
  fetched go exec m (some i) =
      if m.ai_interrupted then some (raise interrupted_warning m) else continue_with go (exec i)

  -- The loop, from position `ip` on, and what a function runs. `n` is the fuel: one unit for each
  -- instruction and each call.
  unfoldable mutual
    unfolding step call_function_bound

    pub exec_branch : ℕ → Code → ℕ → Machine G → Option (Machine G)
    exec_branch zero code ip m = none
    exec_branch (suc n) code ip m =
        fetched (λ p r. exec_branch n code p r) (λ i. step (λ t r. run n t r) code i ip m) m
          (get_elem? code.ir ip)

    pub run : ℕ → Runner G
    run zero t m = none
    run (suc n) (body code) m = exec_branch n code 0 m
    run (suc n) (bound s fn argc) m = call_function_bound (λ t r. run n t r) s fn argc m

  -- The new stack of `akl_execute`. The context of a program has no frame.
  abbrev pub new_stack : Machine G → Machine G
  new_stack m = record m {
    stack = [];
    frame_head = none;
    frame_end = 0;
    frame_count = 0;
    ai_interrupted = false;
  }

  -- `akl_execute`: a new stack, then the main function.
  unfoldable pub execute : ℕ → Code → Machine G → Option (Machine G)
  execute n main m = exec_branch n main 0 (new_stack m)
